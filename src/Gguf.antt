-- ===== src/Gguf.antt =====
-- crates/model-store/src/gguf.rs: the parser of a GGUF file's header, of its metadata and of its
-- tensor index, over the bytes of the file. Arithmetic on positions wraps at 2 ^ 64, as in a release
-- build, and a slice whose end is before its start panics.
pub mod Header
pub mod Cursor
pub mod Walk
pub mod Shift
pub mod Reads
pub mod Offsets
use intelnav.Base.{
  ℕ, zero, suc, ◌+◌, ◌-◌, ◌*◌, ◌/◌, ◌%◌, ◌^◌, ◌≤◌, ◌<◌, min, max, String, ◌≡◌, refl, sym, ap, ◌∙◌,
  ◌≢◌, ◌↔◌, ◌⊎◌, inl, inr, Bool, true, false, not, ◌&&◌, ◌||◌, Option, none, some, List, [], ◌∷◌,
  ◌++◌, map, append_assoc, append-nil, arith, ltb, leb, ◌==◌, if◌then◌else◌, ltb→lt, lt→ltb, leb→le,
  le→leb, ==_iff, tests, Bool-cases, Option-cases, List-cases, length, get_elem?, set, take, drop,
  replicate, All, length-append, take-append-drop, length-take, length-drop, length-replicate,
  take-append, drop-append, take-all, take-append_add, take-take, last-split, length-set,
  length-map, Result, ok, err, ◌>>=◌, ◌>>◌, guard, or_fail, Result-cases, bind-ok, guard-ok,
}
use intelnav.Base.Bytes.{of_le, bytes_eq, is_utf8}
use intelnav.Types.{u64_mod}

pub data GgufError : Type 0 where
  bad_magic : List ℕ → GgufError
  bad_version malformed unknown_kv_type : ℕ → GgufError
  -- an index out of range, or an empty `Option` unwrapped
  panic : GgufError

pub data KvType : Type 0 where
  u8 i8 u16 i16 u32 i32 f32 bool string array u64 i64 f64 : KvType

abbrev pub gguf_version_supported : ℕ
gguf_version_supported = 3

abbrev pub gguf_default_alignment : ℕ
gguf_default_alignment = 32

abbrev pub gguf_max_tensors : ℕ
gguf_max_tensors = 2 ^ 20

abbrev pub gguf_max_kv : ℕ
gguf_max_kv = 2 ^ 16

abbrev pub gguf_max_dims : ℕ
gguf_max_dims = 8

-- "GGUF"
abbrev pub gguf_magic : List ℕ
gguf_magic = 71 ∷ 71 ∷ 85 ∷ 70 ∷ []

-- "general.alignment"
abbrev pub alignment_key : List ℕ
alignment_key =
    103 ∷ 101 ∷ 110 ∷ 101 ∷ 114 ∷ 97 ∷ 108 ∷ 46 ∷ 97 ∷ 108 ∷ 105 ∷ 103 ∷ 110 ∷ 109 ∷ 101 ∷ 110 ∷ 116
    ∷ []

-- By their numbers.
abbrev kv_types : List KvType
kv_types = u8 ∷ i8 ∷ u16 ∷ i16 ∷ u32 ∷ i32 ∷ f32 ∷ bool ∷ string ∷ array ∷ u64 ∷ i64 ∷ f64 ∷ []

unfoldable pub from_u32 : ℕ → Result GgufError KvType
from_u32 v = or_fail (get_elem? kv_types v) (unknown_kv_type v)

unfoldable pub scalar_size : KvType → Option ℕ
scalar_size u8 = some 1
scalar_size i8 = some 1
scalar_size bool = some 1
scalar_size u16 = some 2
scalar_size i16 = some 2
scalar_size u32 = some 4
scalar_size i32 = some 4
scalar_size f32 = some 4
scalar_size u64 = some 8
scalar_size i64 = some 8
scalar_size f64 = some 8
scalar_size string = none
scalar_size array = none

abbrev pub is_u32 : KvType → Bool
is_u32 u32 = true
is_u32 _ = false

-- A cursor on `buf` at `pos`: what is read, and where the cursor is behind it.
unfoldable pub read_bytes : List ℕ → ℕ → ℕ → Result GgufError (List ℕ × ℕ)
read_bytes buf n pos =
    let stop = (pos + n) % u64_mod in
    if ltb (length buf) stop
    then err (malformed pos)
    else if ltb stop pos
    then err panic
    else ok (take (stop - pos) (drop pos buf), stop)

unfoldable pub read_u32 : List ℕ → ℕ → Result GgufError (ℕ × ℕ)
unfolding read_bytes
read_u32 buf pos = do (b, p) ← read_bytes buf 4 pos; ok (of_le b, p)

unfoldable pub read_u64 : List ℕ → ℕ → Result GgufError (ℕ × ℕ)
unfolding read_bytes
read_u64 buf pos = do (b, p) ← read_bytes buf 8 pos; ok (of_le b, p)

unfoldable pub read_string : List ℕ → ℕ → Result GgufError (List ℕ × ℕ)
unfolding read_u64
read_string buf pos = do
  (n, p) ← read_u64 buf pos
  (bytes, q) ← read_bytes buf n p
  guard (is_utf8 bytes) (malformed (q - n))
  ok (bytes, q)

unfoldable pub peek_u32 : List ℕ → ℕ → Result GgufError ℕ
peek_u32 buf pos =
    if ltb (length buf) ((pos + 4) % u64_mod)
    then err (malformed pos)
    else if ltb ((pos + 4) % u64_mod) pos
    then err panic
    else ok (of_le (take 4 (drop pos buf)))

unfoldable pub skip_strings : List ℕ → ℕ → ℕ → Result GgufError ℕ
unfolding read_u64
skip_strings buf zero pos = ok pos
skip_strings buf (suc n) pos = do
  (k, p) ← read_u64 buf pos
  (bytes, q) ← read_bytes buf k p
  skip_strings buf n q

-- A scalar, or as many of them as an array has.
unfoldable pub skip_scalars : List ℕ → KvType → ℕ → ℕ → Result GgufError ℕ
unfolding scalar_size read_bytes
skip_scalars buf ty n pos = do
  sz ← or_fail (scalar_size ty) panic
  (bytes, p) ← read_bytes buf (sz * n % u64_mod) pos
  ok p

unfoldable pub skip_array : List ℕ → KvType → ℕ → ℕ → Result GgufError ℕ
unfolding skip_strings skip_scalars
skip_array buf string n pos = skip_strings buf n pos
skip_array buf array n pos = err (malformed pos)
skip_array buf ty n pos = skip_scalars buf ty n pos

unfoldable pub skip_kv_value : List ℕ → KvType → ℕ → Result GgufError ℕ
unfolding skip_array read_u32 from_u32 read_u64
skip_kv_value buf string pos = do (n, p) ← read_u64 buf pos; (bytes, q) ← read_bytes buf n p; ok q
skip_kv_value buf array pos = do
  (t, p) ← read_u32 buf pos
  element_ty ← from_u32 t
  (n, q) ← read_u64 buf p
  skip_array buf element_ty n q
skip_kv_value buf ty pos = skip_scalars buf ty 1 pos

unfoldable pub align_up : ℕ → ℕ → ℕ
align_up offset alignment =
    if alignment == 0
    then offset
    else if offset % alignment == 0
    then offset
    else (offset + (alignment - offset % alignment)) % u64_mod
