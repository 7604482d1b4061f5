-- ===== src/Store/Index.antt =====
-- The tensor index that crates/model-store/src/stitch.rs writes, as `Gguf::open` reads it, and where
-- the data of the tensors is put.
use intelnav.Base.{
  ℕ, suc, ◌+◌, ◌-◌, ◌%◌, ◌^◌, ◌≤◌, ◌<◌, ◌≡◌, refl, sym, ap, ◌∙◌, true, false, List, [], ◌∷◌, ◌++◌,
  append_assoc, append-nil, arith, ◌==◌, le→leb, ==_iff, length, replicate, All, length-append, ok,
  guard, bind-ok, guard-ok, ok-inj,
}
use intelnav.Base.Bytes.{to_le, is_utf8}
use intelnav.Types.{u64_mod}
use intelnav.Gguf.{gguf_max_dims, read_u32, read_u64, read_string, align_up}
use intelnav.Gguf.Header.{TensorIndexEntry, read_dims, read_tensor, read_index}
use intelnav.Gguf.Reads.{At, At-left, At-right, At-next, read_u32-At, read_u64-At, read_string-At}
use intelnav.Store.Select.{KeptTensor}
use intelnav.Store.Layout.{
  write_string, concat_u64, index_entry, build_index, pad_to, write_tensors,
}

-- What the index has room for.
abbrev pub Fits : KeptTensor → Type 0
Fits t =
    (is_utf8 t.new_name ≡ true)
    × (length t.shape ≤ gguf_max_dims)
    × All (λ d. d < u64_mod) t.shape
    × (t.dtype_code < 2 ^ 32)

abbrev pub index_record : KeptTensor → ℕ → TensorIndexEntry
index_record t off = record {
  name = t.new_name;
  shape = t.shape;
  dtype = t.dtype_code;
  data_offset_rel = off;
  n_bytes = 0;
}

-- The tensors under their new names, at these offsets.
abbrev pub index_of : List KeptTensor → List ℕ → List TensorIndexEntry
index_of [] offs = []
index_of (t ∷ ts) [] = []
index_of (t ∷ ts) (off ∷ offs) = index_record t off ∷ index_of ts offs

read_dims-At :
    (buf : List ℕ) (pos : ℕ) (ds : List ℕ)
    → length buf < u64_mod
    → All (λ d. d < u64_mod) ds
    → At buf pos (concat_u64 ds)
    → read_dims buf (length ds) pos ≡ ok (ds, pos + length (concat_u64 ds))
unfolding read_dims
read_dims-At buf pos [] small fits at = ap (λ k. ok ([], k)) (omega arith)
read_dims-At buf pos (d ∷ ds) small fits at =
    let front = At-left (to_le 8 d) (concat_u64 ds) at in
    let back = At-right (to_le 8 d) (concat_u64 ds) at in
    let e1 = read_u64-At buf pos d small fits.0 front in
    let e2 = read_dims-At buf (pos + length (to_le 8 d)) ds small fits.1 back in
    let total = length-append (to_le 8 d) (concat_u64 ds) in
    rw e1 (rw e2 (ap (λ k. ok (d ∷ ds, k)) (omega arith)))

read_tensor-of :
    (buf : List ℕ) (pos : ℕ) {p q r s e : ℕ} {name shape : List ℕ} {dtype off : ℕ}
    → read_string buf pos ≡ ok (name, p)
    → read_u32 buf p ≡ ok (length shape, q)
    → length shape ≤ gguf_max_dims
    → read_dims buf (length shape) q ≡ ok (shape, r)
    → read_u32 buf r ≡ ok (dtype, s)
    → read_u64 buf s ≡ ok (off, e)
    → read_tensor buf pos
      ≡ ok (
        record { name = name; shape = shape; dtype = dtype; data_offset_rel = off; n_bytes = 0 },
        e,
      )
unfolding read_tensor
read_tensor-of buf pos {shape = shape} e1 e2 dims e3 e4 e5 =
    let few = le→leb (length shape) gguf_max_dims dims in
    rw e1 (rw e2 (rw few (rw e3 (rw e4 (rw e5 refl)))))

read_tensor-At :
    (buf : List ℕ) (pos : ℕ) (t : KeptTensor) (cursor : ℕ)
    → length buf < u64_mod
    → Fits t
    → cursor < u64_mod
    → At buf pos (index_entry t cursor)
    → read_tensor buf pos ≡ ok (index_record t cursor, pos + length (index_entry t cursor))
unfolding index_entry write_string
read_tensor-At buf pos t cursor small (valid, few, dims, code) bound at =
    let name = write_string t.new_name in
    let rank = to_le 4 (length t.shape) in
    let shape = concat_u64 t.shape in
    let dtype = to_le 4 t.dtype_code in
    let off = to_le 8 cursor in
    let l4 = At-left (name ++ rank ++ shape ++ dtype) off at in
    let l3 = At-left (name ++ rank ++ shape) dtype l4 in
    let l2 = At-left (name ++ rank) shape l3 in
    let l1 = At-left name rank l2 in
    let p1 = pos + length name in
    let p2 = p1 + length rank in
    let p3 = p2 + length shape in
    let p4 = p3 + length dtype in
    let s2 = length-append name rank in
    let s3 = length-append (name ++ rank) shape in
    let s4 = length-append (name ++ rank ++ shape) dtype in
    let s5 = length-append (name ++ rank ++ shape ++ dtype) off in
    let e1 = read_string-At buf pos t.new_name small valid l1 in
    let e2 =
      read_u32-At buf p1 (length t.shape) small (omega arith) (At-next name rank p1 l2 refl) in
    let e3 =
      read_dims-At buf p2 t.shape small dims
        (At-next (name ++ rank) shape p2 l3 (omega (arith, s2))) in
    let e4 =
      read_u32-At buf p3 t.dtype_code small code
        (At-next (name ++ rank ++ shape) dtype p3 l4 (omega (arith, s2, s3))) in
    let e5 =
      read_u64-At buf p4 cursor small bound
        (At-next (name ++ rank ++ shape ++ dtype) off p4 at (omega (arith, s2, s3, s4))) in
    read_tensor-of buf pos e1 e2 few e3 e4 e5
    ∙ ap (λ k. ok (index_record t cursor, k)) (omega (arith, s2, s3, s4, s5))

align_up-bound : (x alignment : ℕ) → x < u64_mod → align_up x alignment < u64_mod
unfolding align_up
align_up-bound x alignment small = ground arith

-- What is written is read back: the tensors in order, with their new names and offsets.
pub read_index-At :
    (alignment : ℕ) (buf : List ℕ) (pos : ℕ) (ts : List KeptTensor) (cursor : ℕ)
    → length buf < u64_mod
    → All Fits ts
    → cursor < u64_mod
    → At buf pos (build_index alignment ts cursor).0
    → read_index buf (length ts) pos
      ≡ ok (
        index_of ts (build_index alignment ts cursor).1,
        pos + length (build_index alignment ts cursor).0,
      )
unfolding build_index read_index
read_index-At alignment buf pos [] cursor small fits bound at = ap (λ k. ok ([], k)) (omega arith)
read_index-At alignment buf pos (t ∷ ts) cursor small fits bound at =
    let next = align_up ((cursor + length t.bytes) % u64_mod) alignment in
    let rest = build_index alignment ts next in
    let entry = index_entry t cursor in
    let e1 = read_tensor-At buf pos t cursor small fits.0 bound (At-left entry rest.0 at) in
    let e2 =
      read_index-At alignment buf (pos + length entry) ts next small fits.1
        (align_up-bound _ alignment (omega arith)) (At-right entry rest.0 at) in
    rw e1 (
      rw e2 (
        ap (λ k. ok (index_record t cursor ∷ index_of ts rest.1, k))
          (omega (arith, length-append entry rest.0))))

pub length-build_index :
    (alignment : ℕ) (ts : List KeptTensor) (cursor : ℕ)
    → length (build_index alignment ts cursor).1 ≡ length ts
unfolding build_index
length-build_index alignment [] cursor = refl
length-build_index alignment (t ∷ ts) cursor = ap suc (length-build_index alignment ts _)

-- Each tensor's data where the start of the data and its offset say.
abbrev pub Placed : List ℕ → ℕ → List KeptTensor → List ℕ → Type 0
Placed file data_start [] offs = Unit
Placed file data_start (t ∷ ts) [] = true ≡ false
Placed file data_start (t ∷ ts) (off ∷ offs) =
    At file ((data_start + off) % u64_mod) t.bytes × Placed file data_start ts offs

-- Nothing that is written is changed later, and the data is where it belongs.
pub write_tensors-Placed :
    (alignment data_start : ℕ) (ts : List KeptTensor) (offs start : List ℕ) {file : List ℕ}
    → length offs ≡ length ts
    → write_tensors alignment data_start ts offs start ≡ ok file
    → ((more : List ℕ) × (file ≡ start ++ more)) × Placed file data_start ts offs
unfolding write_tensors
write_tensors-Placed alignment data_start [] offs start len e =
    (([], sym (ok-inj e) ∙ sym (append-nil start)), tt)
write_tensors-Placed alignment data_start (t ∷ ts) [] start len e = absurd (omega arith)
write_tensors-Placed alignment data_start (t ∷ ts) (off ∷ offs) start {file = file} len e =
    let (u, e1, r1) = bind-ok (guard ((data_start + off) % u64_mod == length start) _) _ e in
    let there : (data_start + off) % u64_mod ≡ length start = (==_iff _ _).0 (guard-ok _ _ e1) in
    let ((more, grown), placed) =
      write_tensors-Placed alignment data_start ts offs
        (pad_to (start ++ t.bytes) (align_up (length (start ++ t.bytes)) alignment)) (omega arith)
        r1 in
    let pad =
      replicate (align_up (length (start ++ t.bytes)) alignment - length (start ++ t.bytes)) 0 in
    let whole : file ≡ start ++ (t.bytes ++ (pad ++ more)) =
      grown ∙ append_assoc (start ++ t.bytes) pad more ∙ append_assoc start t.bytes (pad ++ more) in
    ((t.bytes ++ (pad ++ more), whole), ((start, pad ++ more, whole, there), placed))
