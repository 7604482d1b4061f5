-- ===== src/Store/Bundle.antt =====
-- crates/model-store/src/bundle.rs: which bundle a tensor goes to, and what the bundles are called.
use intelnav.Base.{ℕ, ◌+◌, ◌%◌, ◌<◌, Option, none, some, List, [], ◌∷◌, ◌++◌, ◌==◌, if◌then◌else◌}
use intelnav.Base.Decimal.{show_u32, parse_u32}
use intelnav.Types.{u32_mod}

pub data BundleKind : Type 0 where
  embed : BundleKind
  block : ℕ → BundleKind
  head : BundleKind

-- "embed"
abbrev pub embed_name : List ℕ
embed_name = 101 ∷ 109 ∷ 98 ∷ 101 ∷ 100 ∷ []

-- "head"
abbrev pub head_name : List ℕ
head_name = 104 ∷ 101 ∷ 97 ∷ 100 ∷ []

-- "blk."
abbrev pub blk_prefix : List ℕ
blk_prefix = 98 ∷ 108 ∷ 107 ∷ 46 ∷ []

-- "token_embd"
abbrev pub token_embd : List ℕ
token_embd = 116 ∷ 111 ∷ 107 ∷ 101 ∷ 110 ∷ 95 ∷ 101 ∷ 109 ∷ 98 ∷ 100 ∷ []

unfoldable pub kind_name : BundleKind → List ℕ
kind_name embed = embed_name
kind_name (block n) = blk_prefix ++ show_u32 n
kind_name head = head_name

unfoldable pub layer_range : BundleKind → Option (ℕ × ℕ)
layer_range (block n) = some (n, (n + 1) % u32_mod)
layer_range embed = none
layer_range head = none

unfoldable pub strip_prefix : List ℕ → List ℕ → Option (List ℕ)
strip_prefix [] xs = some xs
strip_prefix (p ∷ ps) [] = none
strip_prefix (p ∷ ps) (x ∷ xs) = if p == x then strip_prefix ps xs else none

-- What stands in front of the first dot, and behind it; nothing when there is no dot.
unfoldable pub split_dot : List ℕ → List ℕ × List ℕ
split_dot [] = ([], [])
split_dot (c ∷ cs) = let rest = split_dot cs in if c == 46 then ([], cs) else (c ∷ rest.0, rest.1)

unfoldable pub classify_tensor : List ℕ → BundleKind
classify_tensor name = elim (strip_prefix token_embd name) [
  | some rest ↦ embed
  | none ↦ elim (strip_prefix blk_prefix name) [
    | none ↦ head
    | some rest ↦ elim (parse_u32 (split_dot rest).0) [ none ↦ head | some n ↦ block n ]
  ]
]

abbrev pub IsU32Kind : BundleKind → Type 0
IsU32Kind embed = Unit
IsU32Kind (block n) = n < u32_mod
IsU32Kind head = Unit
