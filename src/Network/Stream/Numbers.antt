-- ===== src/Network/Stream/Numbers.antt =====
-- Numbers in network order: what a writer has written, a reader reads.
use cx_framework.Base.{
  ℕ, zero, suc, ◌^◌, ◌≤◌, ◌<◌, Bool, true, ◌&&◌, [], ◌∷◌, ◌++◌, Bytes, length, length-append, take,
  drop, replicate, ◌==◌, ◌≡◌, refl, ap, ap₂, ◌∙◌, arith,
}
use cx_framework.Network.Stream.{from_network, to_network, read_uint}
use cx_framework.Network.Stream.Socket.{IsReader}

pub length-to_network : (size n : ℕ) → length (to_network size n) ≡ size
unfolding to_network
length-to_network zero n = refl
length-to_network (suc size) n = omega (arith, length-to_network size n)

-- Numbers of one, two and four bytes.
pub from_network-byte : (n : ℕ) → n < 2 ^ 8 → from_network (to_network 1 n) ≡ n
unfolding from_network to_network
from_network-byte n h = omega arith

pub from_network-short : (n : ℕ) → n < 2 ^ 16 → from_network (to_network 2 n) ≡ n
unfolding from_network to_network
from_network-short n h = omega arith

pub from_network-long : (n : ℕ) → n < 2 ^ 32 → from_network (to_network 4 n) ≡ n
unfolding from_network to_network
from_network-long n h = omega arith

pub take_prefix : (n : ℕ) (xs ys : Bytes) → length xs ≡ n → take n (xs ++ ys) ≡ xs
take_prefix n [] ys e = let h : n ≡ 0 = omega arith in rw h refl
take_prefix zero (x ∷ xs) ys e = absurd (omega arith)
take_prefix (suc n) (x ∷ xs) ys e = ap (◌∷◌ x) (take_prefix n xs ys (omega arith))

pub drop_prefix : (n : ℕ) (xs ys : Bytes) → length xs ≡ n → drop n (xs ++ ys) ≡ ys
drop_prefix n [] ys e = let h : n ≡ 0 = omega arith in rw h refl
drop_prefix zero (x ∷ xs) ys e = absurd (omega arith)
drop_prefix (suc n) (x ∷ xs) ys e = drop_prefix n xs ys (omega arith)

module _ {S : Type 0} (read_block : S → ℕ → S × Bool × Bytes) (pending : S → Bytes)
    (reader : IsReader read_block pending) where
  -- A block that is there is read, and what lies behind it is left.
  pub read_front :
      (s : S) (n : ℕ) (xs rest : Bytes)
      → 0 < n
      → n < 2 ^ 31
      → length xs ≡ n
      → pending s ≡ xs ++ rest
      → (s' : S) × (read_block s n ≡ (s', true, xs)) × (pending s' ≡ rest)
  read_front s n xs rest some_bytes counted size there =
      let enough : n ≤ length (pending s) =
        omega (arith, ap (length {0}) there, length-append xs rest) in
      let (s', e, left) = reader.gives s n some_bytes counted enough in
      (
        s',
        e ∙ ap (λ (t : Bytes). (s', true, t)) (ap (take n) there ∙ take_prefix n xs rest size),
        left ∙ ap (drop n) there ∙ drop_prefix n xs rest size,
      )

  pub read_uint-to_network :
      (s : S) (size n : ℕ) (rest : Bytes)
      → 0 < size
      → size < 2 ^ 31
      → from_network (to_network size n) ≡ n
      → pending s ≡ to_network size n ++ rest
      → (s' : S) × (read_uint read_block size s ≡ (s', n, true)) × (pending s' ≡ rest)
  unfolding read_uint
  read_uint-to_network s size n rest some_bytes counted fits there =
      let (s', e, left) =
        read_front s size (to_network size n) rest some_bytes counted (length-to_network size n)
          there in
      (
        s',
        ap
              (λ (r : S × Bool × Bytes). (
                r.0,
                from_network (take size (r.2 ++ replicate size 0)),
                r.1 && (length (r.2) == size),
              ))
              e
            ∙ ap₂ (λ (m : ℕ) (b : Bool). (s', m, b))
                (ap from_network (
                    take_prefix size (to_network size n) (replicate size 0)
                      (length-to_network size n))
                  ∙ fits)
                (ground (arith, length-to_network size n)),
        left,
      )
