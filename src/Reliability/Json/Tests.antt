-- ===== src/Reliability/Json/Tests.antt =====
-- Runs of the canonical printer.
use service_hub_backend.Base.{◌≢◌, arith, ◌≡◌, refl, true}
use service_hub_backend.Base.Text.{codes, text_eq, text_lt}
use service_hub_backend.Reliability.Json.{
  Json, null, bool, num, str, arr, obj, nil, cons, end, field, canonicalize_json,
}
use service_hub_backend.Reliability.Json.Reorder.{
  Reorder, canonicalize_json-Reorder, cons_of, nil_of, arr_of, obj_of, swap,
}

sample_text :
    canonicalize_json (
      obj (
        field
          (codes "b")
          (arr (cons null (cons (bool true) nil)))
          (field (codes "a") (str (codes "x\"y")) end)))
    ≡ codes "{\"a\":\"x\\\"y\",\"b\":[null,true]}"
unfolding canonicalize_json text_lt text_eq
sample_text = refl

abbrev two_fields : Json
two_fields = obj (field (codes "b") null (field (codes "a") (num (codes "2")) end))

abbrev fields_swapped : Json
fields_swapped = obj (field (codes "a") (num (codes "2")) (field (codes "b") null end))

b_not_a : codes "b" ≢ codes "a"
b_not_a h = ground arith

swapped : Reorder two_fields fields_swapped
swapped = obj_of (swap (codes "b") (codes "a") null (num (codes "2")) end b_not_a)

canonicalize_json-Reorder_example :
    canonicalize_json (arr (cons two_fields nil))
    ≡ canonicalize_json (arr (cons fields_swapped nil))
canonicalize_json-Reorder_example = canonicalize_json-Reorder (arr_of (cons_of swapped nil_of))
