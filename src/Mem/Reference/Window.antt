-- ===== src/Mem/Reference/Window.antt =====
-- binarycontainer_ref.cpp: a reference to a view of memory compares as a view of its range does.
use cx_framework.Base.{
  min, take, length-take, ℕ, ◌+◌, ◌-◌, ◌%◌, ◌^◌, ◌≤◌, ◌<◌, Bool, Bool-cases, inl, inr, false, some,
  Bytes, length, take_all, drop, drop-drop, ltb, ◌==◌, ◌≡◌, refl, sym, ap, ◌∙◌, arith, true,
  if◌then◌else◌,
}
use cx_framework.Mem.Memory.{overflows, memicmp2}
use cx_framework.Mem.Search.{Backend, compare}
use cx_framework.Mem.Linear.{Linear, backend}
use cx_framework.Mem.Linear
use cx_framework.Mem.Reference.{Reference, ref_size, in_range, no_limit, ref_backend}
use cx_framework.Mem.Reference

abbrev pub ref_to : Linear → ℕ → ℕ → Reference
ref_to m offset max_bytes = record {
  referenced = some (backend m);
  offset = offset;
  max_bytes = max_bytes;
}

-- The memory of a range.
abbrev pub window : Linear → ℕ → ℕ → Linear
window m offset size = record { linear_mem = drop offset m.linear_mem; container_bytes = size }

ref_size-bound :
    (m : Linear) (offset max_bytes : ℕ)
    → m.container_bytes < 2 ^ 64
    → offset ≤ m.container_bytes
    → offset + ref_size (ref_to m offset max_bytes) ≤ m.container_bytes
unfolding ref_size backend
ref_size-bound m offset max_bytes h k =
    let e : (m.container_bytes + 2 ^ 64 - offset) % 2 ^ 64 ≡ m.container_bytes - offset =
      omega (arith, h, k) in
    ground (arith, e, h, k)

-- What a container answers whose tests all pass.
compare_passed :
    (buf : Bytes) (case_sensitive : Bool) (offset : ℕ) (b : Backend)
    → overflows offset (length buf) ≡ false
    → (length buf == 0) ≡ false
    → ltb b.size (offset + length buf) ≡ false
    → compare buf case_sensitive offset b ≡ b.compare2 buf case_sensitive offset
unfolding compare
compare_passed buf case_sensitive offset b e₁ e₂ e₃ = rw (e₁, e₂, e₃) refl

compare_empty :
    (buf : Bytes) (case_sensitive : Bool) (offset : ℕ) (b : Backend)
    → overflows offset (length buf) ≡ false
    → (length buf == 0) ≡ true
    → compare buf case_sensitive offset b ≡ some true
unfolding compare
compare_empty buf case_sensitive offset b e₁ e₂ = rw (e₁, e₂) refl

linear_passed :
    (buf : Bytes) (case_sensitive : Bool) (offset : ℕ) (m : Linear)
    → overflows offset (length buf) ≡ false
    → (length buf == 0) ≡ false
    → ltb m.container_bytes (offset + length buf) ≡ false
    → Linear.compare2 buf case_sensitive offset m
      ≡ memicmp2 (drop offset m.linear_mem) buf (length buf) case_sensitive
unfolding Linear.compare2
linear_passed buf case_sensitive offset m e₁ e₂ e₃ = rw (e₁, e₂, e₃) refl

-- Two containers of one size compare alike if they do where the tests pass.
compare_alike :
    (buf : Bytes) (case_sensitive : Bool) (offset : ℕ) (a b : Backend)
    → a.size ≡ b.size
    → (overflows offset (length buf) ≡ false
        → (length buf == 0) ≡ false
        → ltb a.size (offset + length buf) ≡ false
        → a.compare2 buf case_sensitive offset ≡ b.compare2 buf case_sensitive offset)
    → compare buf case_sensitive offset a ≡ compare buf case_sensitive offset b
unfolding compare
compare_alike buf case_sensitive offset a b e alike =
    elim (Bool-cases (overflows offset (length buf))) [
      | inl o ↦ rw o refl
      | inr o ↦ elim (Bool-cases (length buf == 0)) [
        | inl z ↦ rw (o, z) refl
        | inr z ↦ elim (Bool-cases (ltb a.size (offset + length buf))) [
          | inl s ↦ rw (o, z, sym e, s) refl
          | inr s ↦ rw (o, z, sym e, s) (alike o z s)
        ]
      ]
    ]

no_overflow :
    (offset at n size total : ℕ)
    → offset + size ≤ total
    → at + n ≤ size
    → total < 2 ^ 64
    → overflows (offset + at) n ≡ false
unfolding overflows
no_overflow offset at n size total a b c = ground (arith, a, b, c)

fits :
    (offset at n size total : ℕ)
    → offset + size ≤ total
    → at + n ≤ size
    → ltb total (offset + at + n) ≡ false
fits offset at n size total a b = ground (arith, a, b)

take_in_range :
    (buf : Bytes) (most : ℕ)
    → take (if ltb (length buf) most then length buf else most) buf ≡ take most buf
take_in_range buf most = elim (Bool-cases (ltb (length buf) most)) [
  | inl e ↦
      rw e (take_all (length buf) buf (omega arith) ∙ sym (take_all most buf (ground (arith, e))))
  | inr e ↦ rw e refl
]

-- A text that fits in the range compares in it as it does in the whole.
compare-moved :
    (buf : Bytes) (case_sensitive : Bool) (at offset size : ℕ) (m : Linear)
    → offset + size ≤ m.container_bytes
    → at + length buf ≤ size
    → m.container_bytes < 2 ^ 64
    → compare buf case_sensitive (offset + at) (backend m)
      ≡ compare buf case_sensitive at (backend (window m offset size))
unfolding backend
compare-moved buf case_sensitive at offset size m a b c =
    let o = no_overflow offset at (length buf) size m.container_bytes a b c in
    let o' = no_overflow 0 at (length buf) size m.container_bytes (omega (arith, a)) b c in
    let near : overflows at (length buf) ≡ false =
      ap (λ (n : ℕ). overflows n (length buf)) (omega arith) ∙ o' in
    let s = fits offset at (length buf) size m.container_bytes a b in
    let s' : ltb size (at + length buf) ≡ false = ground (arith, b) in
    elim (Bool-cases (length buf == 0)) [
      | inl z ↦
          compare_empty buf case_sensitive (offset + at) (backend m) o z
          ∙ sym (compare_empty buf case_sensitive at (backend (window m offset size)) near z)
      | inr z ↦
          compare_passed buf case_sensitive (offset + at) (backend m) o z s
          ∙ linear_passed buf case_sensitive (offset + at) m o z s
          ∙ ap (λ xs. memicmp2 xs buf (length buf) case_sensitive)
              (sym (drop-drop offset at m.linear_mem))
          ∙ sym (linear_passed buf case_sensitive at (window m offset size) near z s')
          ∙ sym (compare_passed buf case_sensitive at (backend (window m offset size)) near z s')
    ]

-- A text at a place of the range is cut to what lies there and compared at that place of the other.
compare2-cut :
    (buf : Bytes) (case_sensitive : Bool) (at offset max_bytes : ℕ) (b : Backend)
    → at ≤ ref_size (record { referenced = some b; offset = offset; max_bytes = max_bytes })
    → offset + at < 2 ^ 64
    → Reference.compare2 buf case_sensitive at
        (record { referenced = some b; offset = offset; max_bytes = max_bytes })
      ≡ compare
          (take
            (ref_size (record { referenced = some b; offset = offset; max_bytes = max_bytes }) - at)
            buf)
          case_sensitive
          (offset + at)
          b
unfolding Reference.compare2
compare2-cut buf case_sensitive at offset max_bytes b k h =
    let r : Reference = record { referenced = some b; offset = offset; max_bytes = max_bytes } in
    let inside : ltb (ref_size r) at ≡ false = ground (arith, k) in
    let place : (offset + at) % 2 ^ 64 ≡ offset + at = omega (arith, h) in
    rw (inside, place)
      (ap (λ (t : Bytes). compare t case_sensitive (offset + at) b)
        (take_in_range buf (ref_size r - at)))

-- How many bytes of the view a reference shows.
abbrev pub shown : Linear → ℕ → ℕ → ℕ
shown m offset max_bytes = min max_bytes (m.container_bytes - offset)

ref_size-shown :
    (m : Linear) (offset max_bytes : ℕ)
    → m.container_bytes < 2 ^ 64
    → max_bytes < 2 ^ 64
    → offset ≤ m.container_bytes
    → ref_size (ref_to m offset max_bytes) ≡ shown m offset max_bytes
unfolding ref_size backend
ref_size-shown m offset max_bytes h l k =
    let e : (m.container_bytes + 2 ^ 64 - offset) % 2 ^ 64 ≡ m.container_bytes - offset =
      omega (arith, h, k) in
    ground (arith, e, h, k, l)

compare2_size :
    (buf : Bytes) (case_sensitive : Bool) (at offset max_bytes : ℕ) (m : Linear)
    → m.container_bytes < 2 ^ 64
    → offset ≤ m.container_bytes
    → at ≤ ref_size (ref_to m offset max_bytes)
    → Reference.compare2 buf case_sensitive at (ref_to m offset max_bytes)
      ≡ compare
          (take (ref_size (ref_to m offset max_bytes) - at) buf)
          case_sensitive
          at
          (backend (window m offset (ref_size (ref_to m offset max_bytes))))
compare2_size buf case_sensitive at offset max_bytes m h k inside =
    let r = ref_to m offset max_bytes in
    let piece = take (ref_size r - at) buf in
    let bound = ref_size-bound m offset max_bytes h k in
    let short : at + length piece ≤ ref_size r =
      omega (arith, length-take (ref_size r - at) buf, inside) in
    compare2-cut buf case_sensitive at offset max_bytes (backend m) inside
      (omega (arith, bound, inside, h))
    ∙ compare-moved piece case_sensitive at offset (ref_size r) m bound short h

-- For a reference to a view of less than 2^64 bytes, at an offset in the view: the bytes in question
-- are those of the view behind the offset, at most as many as the reference is limited to. `compare2`
-- compares a text at a place in that range, cut where it reaches past the range, as a view of the range
-- alone does.
pub compare2-window :
    (buf : Bytes) (case_sensitive : Bool) (at offset max_bytes : ℕ) (m : Linear)
    → m.container_bytes < 2 ^ 64
    → max_bytes < 2 ^ 64
    → offset ≤ m.container_bytes
    → at ≤ shown m offset max_bytes
    → Reference.compare2 buf case_sensitive at (ref_to m offset max_bytes)
      ≡ compare
          (take (shown m offset max_bytes - at) buf)
          case_sensitive
          at
          (backend (window m offset (shown m offset max_bytes)))
compare2-window buf case_sensitive at offset max_bytes m h l k inside =
    let e = ref_size-shown m offset max_bytes h l k in
    compare2_size buf case_sensitive at offset max_bytes m h k (omega (arith, e, inside))
    ∙ ap (λ (n : ℕ). compare (take (n - at) buf) case_sensitive at (backend (window m offset n))) e

-- For the same reference and the same range: the reference compares with every text at every place as
-- a view of the range alone does.
pub compare-window :
    (buf : Bytes) (case_sensitive : Bool) (at offset max_bytes : ℕ) (m : Linear)
    → m.container_bytes < 2 ^ 64
    → max_bytes < 2 ^ 64
    → offset ≤ m.container_bytes
    → compare buf case_sensitive at (ref_backend (ref_to m offset max_bytes))
      ≡ compare buf case_sensitive at (backend (window m offset (shown m offset max_bytes)))
unfolding ref_backend backend
compare-window buf case_sensitive at offset max_bytes m h l k =
    let r = ref_to m offset max_bytes in
    let w = window m offset (shown m offset max_bytes) in
    let e = ref_size-shown m offset max_bytes h l k in
    compare_alike buf case_sensitive at (ref_backend r) (backend w) e λ o z s.
      let inside : at + length buf ≤ ref_size r = ground (arith, s) in
      let whole : take (shown m offset max_bytes - at) buf ≡ buf =
        take_all (shown m offset max_bytes - at) buf (omega (arith, inside, e)) in
      compare2-window buf case_sensitive at offset max_bytes m h l k (omega (arith, inside, e))
      ∙ ap (λ (t : Bytes). compare t case_sensitive at (backend w)) whole
      ∙ compare_passed buf case_sensitive at (backend w) o z (ground (arith, inside, e))
