-- ===== src/Mem/Reference.antt =====
-- cxMem/libcx_mem_containers/src/binarycontainer_ref.cpp: `BinaryContainer_Ref`, a range of another
-- container.
pub mod Window
mod Tests
use cx_framework.Base.{
  ℕ, ◌+◌, ◌-◌, ◌%◌, ◌^◌, Bool, true, false, ◌&&◌, ◌||◌, not, Option, none, some, [], ◌∷◌, Bytes,
  length, take, ltb, leb, ◌==◌, if◌then◌else◌,
}
use cx_framework.Mem.Search.{Found, found, missing, invalid, is_upper, is_lower, Backend, compare}
use cx_framework.Mem.Strings.{copy_out}

-- The referenced container, if there is one, with the offset and the largest size.
pub record Reference : Type 0 where
  pub referenced : Option Backend
  pub offset : ℕ
  pub max_bytes : ℕ

abbrev pub no_limit : ℕ
no_limit = 2 ^ 64 - 1

unfoldable pub reference : Backend → ℕ → ℕ → Reference → Reference × Bool
reference b offset max_bytes r =
    if ltb b.size offset
    then (r, false)
    else (record { referenced = some b; offset = offset; max_bytes = max_bytes }, true)

-- What is available wraps around where the referenced container has become shorter than the offset.
unfoldable pub ref_size : Reference → ℕ
ref_size r = of_referenced r.referenced
  where
    of_referenced : Option Backend → ℕ
    of_referenced none = 0
    of_referenced (some b) =
        let available = (b.size + 2 ^ 64 - r.offset) % 2 ^ 64 in
        if r.max_bytes == no_limit || ltb available r.max_bytes then available else r.max_bytes

unfoldable pub find_char : Bool → ℕ → ℕ → ℕ → Reference → Found
find_char case_sensitive c offset search_space r = of_referenced r.referenced
  where
    of_referenced : Option Backend → Found
    of_referenced none = invalid
    of_referenced (some b) =
        b.find_char (case_sensitive && (is_upper c || is_lower c)) c ((r.offset + offset) % 2 ^ 64)
          search_space

-- `truncate2`, and `truncate` of the base before it.
unfoldable pub truncate : ℕ → Reference → Reference × Bool × ℕ
truncate bytes r =
    if leb (ref_size r) bytes
    then (r, false, ref_size r)
    else (record r { max_bytes = bytes }, true, bytes)

unfoldable pub displace2 : ℕ → Reference → Reference × Bool × ℕ
displace2 bytes r = of_referenced r.referenced
  where
    of_referenced : Option Backend → Reference × Bool × ℕ
    of_referenced none = (r, false, 0)
    of_referenced (some b) =
        let moved = if ltb (ref_size r) bytes then ref_size r else bytes in
        let left =
          if r.max_bytes == no_limit then no_limit else (r.max_bytes + 2 ^ 64 - moved) % 2 ^ 64 in
        (record r { offset = (r.offset + moved) % 2 ^ 64; max_bytes = left }, true, moved)

-- The bytes that lie in the range, of those asked for.
abbrev pub in_range : ℕ → ℕ → Reference → ℕ
in_range bytes offset r = let most = ref_size r - offset in if ltb bytes most then bytes else most

unfoldable pub copy_out2 : ℕ → ℕ → Reference → Bool × Bytes
copy_out2 bytes offset r = of_referenced r.referenced
  where
    of_referenced : Option Backend → Bool × Bytes
    of_referenced none = (false, [])
    of_referenced (some b) =
        if ltb (ref_size r) offset
        then (false, [])
        else copy_out (in_range bytes offset r) ((r.offset + offset) % 2 ^ 64) b

unfoldable pub compare2 : Bytes → Bool → ℕ → Reference → Option Bool
compare2 buf case_sensitive offset r = of_referenced r.referenced
  where
    of_referenced : Option Backend → Option Bool
    of_referenced none = some false
    of_referenced (some b) =
        if ltb (ref_size r) offset
        then some false
        else compare (take (in_range (length buf) offset r) buf) case_sensitive
            ((r.offset + offset) % 2 ^ 64) b

unfoldable pub ref_backend : Reference → Backend
ref_backend r = record {
  size = ref_size r;
  find_char =
      λ case_sensitive c offset search_space. find_char case_sensitive c offset search_space r;
  compare2 = λ buf case_sensitive offset. compare2 buf case_sensitive offset r;
  copy_out2 = λ bytes offset. copy_out2 bytes offset r;
}
