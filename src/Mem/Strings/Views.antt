-- ===== src/Mem/Strings/Views.antt =====
-- What a view of memory gives as a string.
use cx_framework.Base.{
  ℕ, zero, suc, ◌+◌, ◌-◌, Bool, true, false, ◌&&◌, ◌≡◌, refl, [], Bytes, take, drop, ltb, ◌==◌,
  if◌then◌else◌, Bool-cases, inl, inr,
}
use cx_framework.Mem.Memory.{overflows}
use cx_framework.Mem.Linear.{Linear, copy_out2, backend}
use cx_framework.Mem.Strings.{
  all_bytes, checked, ranged, copy_out, added, string_loop, copy_to_string, to_string,
}

-- A copy that fails, or that gives nothing.
abbrev IsQuiet : Bool × Bytes → Type 0
IsQuiet (true, piece) = piece ≡ []
IsQuiet (false, piece) = Unit {0}

-- What holds on both branches.
either :
    (P : Bool × Bytes → Type 0) (b : Bool) (x y : Bool × Bytes) → P x → P y → P (if b then x else y)
either P true x y h k = h
either P false x y h k = k

copy_out2-IsQuiet : (m : Linear) (bytes offset : ℕ) → IsQuiet (copy_out2 bytes offset m)
unfolding copy_out2
copy_out2-IsQuiet m bytes offset =
    let refused : Bool × Bytes = (false, []) in
    let nothing : Bool × Bytes = (true, []) in
    let behind = m.container_bytes - offset in
    let copied : Bool × Bytes =
      (false, take (if ltb behind bytes then behind else bytes) (drop offset m.linear_mem)) in
    let last = if behind == 0 then nothing else copied in
    let inside = if ltb m.container_bytes offset then refused else last in
    let fitting = if ltb m.container_bytes (offset + bytes) then refused else inside in
    let used = if bytes == 0 then nothing else fitting in
    either IsQuiet (overflows offset bytes) refused used tt (
      either IsQuiet (bytes == 0) nothing fitting refl (
        either IsQuiet (ltb m.container_bytes (offset + bytes)) refused inside tt (
          either IsQuiet (ltb m.container_bytes offset) refused last tt
            (either IsQuiet (behind == 0) nothing copied refl tt))))

module _ (m : Linear) where
  -- What holds of a refusal, of nothing, and of the copy holds behind the checks.
  checked_keeps :
      (P : Bool × Bytes → Type 0) (go : ℕ → Bool × Bytes) (n offset : ℕ)
      → P (false, [])
      → P (true, [])
      → P (go n)
      → P (checked go n offset (backend m))
  unfolding checked
  checked_keeps P go n offset refuse none_ h =
      let refused : Bool × Bytes = (false, []) in
      let fitting = if ltb (backend m).size (offset + n) then refused else go n in
      either P (overflows offset n) refused (if n == 0 then (true, []) else fitting) refuse (
        either P (n == 0) (true, []) fitting none_
          (either P (ltb (backend m).size (offset + n)) refused (go n) refuse h))

  ranged_keeps :
      (P : Bool × Bytes → Type 0) (go : ℕ → Bool × Bytes) (bytes offset : ℕ)
      → P (false, [])
      → P (true, [])
      → ((n : ℕ) → P (go n))
      → P (ranged go bytes offset (backend m))
  unfolding ranged
  ranged_keeps P go bytes offset refuse none_ h =
      let n = if bytes == all_bytes then (backend m).size - offset else bytes in
      either P (bytes == all_bytes && ltb (backend m).size offset) (false, [])
        (checked go n offset (backend m)) refuse (checked_keeps P go n offset refuse none_ (h n))

  copy_out-IsQuiet : (bytes offset : ℕ) → IsQuiet (copy_out bytes offset (backend m))
  unfolding copy_out backend
  copy_out-IsQuiet bytes offset =
      ranged_keeps IsQuiet (λ n. copy_out2 n offset m) bytes offset tt refl
        (λ n. copy_out2-IsQuiet m n offset)

  quiet_round :
      (r : Bool × Bytes) (rest : Bytes → Bool × Bytes)
      → IsQuiet r
      → (rest []).1 ≡ []
      → (added r [] rest).1 ≡ []
  unfolding added
  quiet_round (true, piece) rest h e = rw h e
  quiet_round (false, piece) rest h e = refl

  string_loop_empty :
      (fuel bytes offset : ℕ) → (string_loop fuel bytes offset [] (backend m)).1 ≡ []
  unfolding string_loop
  string_loop_empty zero bytes offset = refl
  string_loop_empty (suc fuel) bytes offset = elim (Bool-cases (bytes == 0)) [
    | inl ended ↦ rw ended refl
    | inr more ↦
        let n = if ltb 8192 bytes then 8192 else bytes in
        rw more (
          quiet_round (copy_out n offset (backend m))
            (λ out. string_loop fuel (bytes - n) (offset + n) out (backend m))
            (copy_out-IsQuiet n offset) (string_loop_empty fuel (bytes - n) (offset + n)))
  ]

  -- A view of memory gives the empty string for every range, whatever bytes it shows.
  pub to_string-empty : (bytes offset : ℕ) → to_string bytes offset (backend m) ≡ []
  unfolding to_string copy_to_string
  to_string-empty bytes offset =
      ranged_keeps (λ r. r.1 ≡ []) (λ n. string_loop n n offset [] (backend m)) bytes offset refl
        refl (λ n. string_loop_empty n n offset)
