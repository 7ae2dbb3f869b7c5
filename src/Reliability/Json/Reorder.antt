-- ===== src/Reliability/Json/Reorder.antt =====
-- PostgreSQL's JSONB gives the members of an object back in another order.
-- This relation says that two values differ in that alone, at any depth.
use service_hub_backend.Base.{◌≡◌, refl, ap, ◌∙◌, ◌≢◌, List, [], ◌∷◌, arith}
use service_hub_backend.Base.Text.{Text, text_eq_iff, text_lt_asym, text_lt_connex, text_lt_trans}
use service_hub_backend.Reliability.Json.{
  Json, Items, Fields, arr, obj, nil, cons, end, field, insert_key, sort_keys, keys, lookup,
  members, object_text, canonicalize_json, canonical_items, canonical_fields,
}

mutual
  pub data Reorder : Json → Json → Type 0 where
    same : (v : Json) → Reorder v v
    arr_of : {vs ws : Items} → ReorderItems vs ws → Reorder (arr vs) (arr ws)
    obj_of : {fs gs : Fields} → ReorderFields fs gs → Reorder (obj fs) (obj gs)

  pub data ReorderItems : Items → Items → Type 0 where
    nil_of : ReorderItems nil nil
    cons_of :
        {v w : Json} {vs ws : Items}
        → Reorder v w
        → ReorderItems vs ws
        → ReorderItems (cons v vs) (cons w ws)

  pub data ReorderFields : Fields → Fields → Type 0 where
    end_of : ReorderFields end end
    field_of :
        (k : Text) {v w : Json} {fs gs : Fields}
        → Reorder v w
        → ReorderFields fs gs
        → ReorderFields (field k v fs) (field k w gs)
    swap :
        (k l : Text) (v w : Json) (fs : Fields)
        → k ≢ l
        → ReorderFields (field k v (field l w fs)) (field l w (field k v fs))
    trans : {fs gs hs : Fields} → ReorderFields fs gs → ReorderFields gs hs → ReorderFields fs hs

insert_key_comm :
    (k l : Text) (xs : List Text) → insert_key k (insert_key l xs) ≡ insert_key l (insert_key k xs)
unfolding insert_key
insert_key_comm k l [] = ground (arith, text_lt_asym k l, text_lt_connex k l)
insert_key_comm k l (x ∷ xs) = ground (
  arith,
  text_lt_asym k l,
  text_lt_connex k l,
  text_lt_trans l k x,
  text_lt_trans k l x,
  insert_key_comm k l xs,
)

-- Two lists of members that an object cannot be told apart by.
record IsSame (ps qs : List (Text × Text)) : Type 0 where
  sorted : sort_keys (keys ps) ≡ sort_keys (keys qs)
  found : (k : Text) → lookup k ps ≡ lookup k qs

members_cong :
    (ps qs : List (Text × Text)) (ks : List Text)
    → ((k : Text) → lookup k ps ≡ lookup k qs)
    → members ps ks ≡ members qs ks
unfolding members
members_cong ps qs [] h = refl
members_cong ps qs (k ∷ ks) h = rw (h k, members_cong ps qs ks h)

object_text_cong : (ps qs : List (Text × Text)) → IsSame ps qs → object_text ps ≡ object_text qs
unfolding object_text
object_text_cong ps qs s = rw (s.sorted, members_cong ps qs (sort_keys (keys qs)) s.found)

IsSame-cons :
    (k : Text) {v w : Text} (ps qs : List (Text × Text))
    → v ≡ w
    → IsSame ps qs
    → IsSame ((k, v) ∷ ps) ((k, w) ∷ qs)
unfolding sort_keys keys lookup
IsSame-cons k ps qs e s = record {
  sorted = ap (insert_key k) s.sorted;
  found = λ j. rw (e, s.found j);
}

IsSame-swap :
    (k l : Text) (v w : Text) (ps : List (Text × Text))
    → k ≢ l
    → IsSame ((k, v) ∷ (l, w) ∷ ps) ((l, w) ∷ (k, v) ∷ ps)
unfolding sort_keys keys lookup
IsSame-swap k l v w ps ne = record {
  sorted = insert_key_comm k l (sort_keys (keys ps));
  found = λ j. ground (arith, text_eq_iff j k, text_eq_iff j l);
}

IsSame-trans : {ps qs rs : List (Text × Text)} → IsSame ps qs → IsSame qs rs → IsSame ps rs
IsSame-trans s t = record { sorted = s.sorted ∙ t.sorted; found = λ k. s.found k ∙ t.found k }

mutual
  unfolding canonicalize_json

  Reorder-text : {v w : Json} → Reorder v w → canonicalize_json v ≡ canonicalize_json w
  Reorder-text (same v) = refl
  Reorder-text (arr_of r) = rw (reorder_items r)
  Reorder-text (obj_of r) = object_text_cong _ _ (reorder_fields r)

  reorder_items : {vs ws : Items} → ReorderItems vs ws → canonical_items vs ≡ canonical_items ws
  reorder_items nil_of = refl
  reorder_items (cons_of r rs) = rw (Reorder-text r, reorder_items rs)

  reorder_fields :
      {fs gs : Fields} → ReorderFields fs gs → IsSame (canonical_fields fs) (canonical_fields gs)
  reorder_fields end_of = record { sorted = refl; found = λ k. refl }
  reorder_fields (field_of k r rs) = IsSame-cons k _ _ (Reorder-text r) (reorder_fields rs)
  reorder_fields (swap k l v w fs ne) =
      IsSame-swap k l (canonicalize_json v) (canonicalize_json w) (canonical_fields fs) ne
  reorder_fields (trans r s) = IsSame-trans (reorder_fields r) (reorder_fields s)

-- Values that differ only in the order of the members of their objects, at any depth, have the
-- same canonical text.
pub canonicalize_json-Reorder :
    {v w : Json} → Reorder v w → canonicalize_json v ≡ canonicalize_json w
canonicalize_json-Reorder r = Reorder-text r
