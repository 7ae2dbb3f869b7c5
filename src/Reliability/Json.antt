-- ===== src/Reliability/Json.antt =====
-- JSON values and `canonicalizeJson` of libs/common/src/reliability/outbox.service.ts.
-- A number is the text that JavaScript prints for it. Lone surrogates in a text are left out.
pub mod Reorder
mod Tests
use service_hub_backend.Base.{
  ◌≡◌, refl, ℕ, ◌+◌, ◌/◌, ◌%◌, Bool, true, false, List, [], ◌∷◌, ◌++◌, Option, none, some, ltb,
  ◌==◌, if◌then◌else◌, or_else,
}
use service_hub_backend.Base.Text.{Text, codes, text_eq, text_lt}

mutual
  pub data Json : Type 0 where
    null : Json
    bool : Bool → Json
    num : Text → Json
    str : Text → Json
    arr : Items → Json
    obj : Fields → Json

  pub data Items : Type 0 where
    nil : Items
    cons : Json → Items → Items

  pub data Fields : Type 0 where
    end : Fields
    field : Text → Json → Fields → Fields

abbrev hex_digit : ℕ → ℕ
hex_digit n = if ltb n 10 then n + 48 else n + 87

-- How `JSON.stringify` writes one code unit of a text.
escape_unit : ℕ → Text
escape_unit c =
    if c == 34
    then 92 ∷ 34 ∷ []
    else if c == 92
    then 92 ∷ 92 ∷ []
    else if c == 8
    then 92 ∷ 98 ∷ []
    else if c == 9
    then 92 ∷ 116 ∷ []
    else if c == 10
    then 92 ∷ 110 ∷ []
    else if c == 12
    then 92 ∷ 102 ∷ []
    else if c == 13
    then 92 ∷ 114 ∷ []
    else if ltb c 32
    then 92 ∷ 117 ∷ 48 ∷ 48 ∷ hex_digit (c / 16) ∷ hex_digit (c % 16) ∷ []
    else c ∷ []

escape : Text → Text
unfolding escape_unit
escape [] = []
escape (c ∷ cs) = escape_unit c ++ escape cs

-- `JSON.stringify` of a text.
unfoldable pub quote : Text → Text
unfolding escape
quote s = 34 ∷ (escape s ++ 34 ∷ [])

-- `xs.join(',')`
join_comma : List Text → Text
join_comma [] = []
join_comma (x ∷ []) = x
join_comma (x ∷ y ∷ ys) = x ++ (44 ∷ join_comma (y ∷ ys))

-- `.sort()` on texts.
insert_key : Text → List Text → List Text
insert_key k [] = k ∷ []
insert_key k (x ∷ xs) = if text_lt k x then k ∷ x ∷ xs else x ∷ insert_key k xs

sort_keys : List Text → List Text
unfolding insert_key
sort_keys [] = []
sort_keys (k ∷ ks) = insert_key k (sort_keys ks)

keys : List (Text × Text) → List Text
keys [] = []
keys ((k, v) ∷ ps) = k ∷ keys ps

-- `obj[k]`, with the value already written out.
lookup : Text → List (Text × Text) → Option Text
lookup k [] = none
lookup k ((j, v) ∷ ps) = if text_eq k j then some v else lookup k ps

-- `JSON.stringify(k) + ':' + canonicalizeJson(obj[k])`; every `k` is one of the keys.
members : List (Text × Text) → List Text → List Text
unfolding lookup quote
members ps [] = []
members ps (k ∷ ks) = (quote k ++ (58 ∷ or_else (lookup k ps) [])) ∷ members ps ks

brackets : ℕ → ℕ → Text → Text
brackets l r s = l ∷ (s ++ r ∷ [])

object_text : List (Text × Text) → Text
unfolding members sort_keys keys join_comma brackets
object_text ps = brackets 123 125 (join_comma (members ps (sort_keys (keys ps))))

unfoldable mutual
  unfolding quote object_text join_comma brackets

  pub canonicalize_json : Json → Text
  canonicalize_json null = codes "null"
  canonicalize_json (bool true) = codes "true"
  canonicalize_json (bool false) = codes "false"
  canonicalize_json (num s) = s
  canonicalize_json (str s) = quote s
  canonicalize_json (arr vs) = brackets 91 93 (join_comma (canonical_items vs))
  canonicalize_json (obj fs) = object_text (canonical_fields fs)

  pub canonical_items : Items → List Text
  canonical_items nil = []
  canonical_items (cons v vs) = canonicalize_json v ∷ canonical_items vs

  pub canonical_fields : Fields → List (Text × Text)
  canonical_fields end = []
  canonical_fields (field k v fs) = (k, canonicalize_json v) ∷ canonical_fields fs

-- `JSON.stringify`, which keeps the order of the members.
unfoldable mutual
  unfolding quote join_comma brackets

  pub stringify : Json → Text
  stringify null = codes "null"
  stringify (bool true) = codes "true"
  stringify (bool false) = codes "false"
  stringify (num s) = s
  stringify (str s) = quote s
  stringify (arr vs) = brackets 91 93 (join_comma (stringify_items vs))
  stringify (obj fs) = brackets 123 125 (join_comma (stringify_fields fs))

  pub stringify_items : Items → List Text
  stringify_items nil = []
  stringify_items (cons v vs) = stringify v ∷ stringify_items vs

  pub stringify_fields : Fields → List Text
  stringify_fields end = []
  stringify_fields (field k v fs) = (quote k ++ (58 ∷ stringify v)) ∷ stringify_fields fs
