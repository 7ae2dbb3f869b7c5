-- ===== src/Signatures/Counted.antt =====
-- The verdict of `verifyContractSignatures` on the two signatures of a file.
use service_hub_backend.Signatures.Checking.{
  SignatureResult, verdict, insert_signed, result_of, sort_signed, verify_contract_signatures,
}
use service_hub_backend.Base.Text.{text_eq_refl, Text}
use service_hub_backend.Base.Table.{find_first, find_many}
use service_hub_backend.Base.{
  false, true, ◌≤◌, Bool, List, [], arith, Option, ap, map, ◌∙◌, refl, some, ℕ, ◌==◌, ◌∷◌, ◌≡◌,
}
use service_hub_backend.Signatures.{
  checks_out, hash_matches, key_has_id, verify_signature_record, ContractSignature, GnupgKey, Gpg,
  Db,
}

abbrev pub of_file : ℕ → ContractSignature → Bool
of_file file s = s.contract_file_id == file

pub known_key :
    (gpg : Gpg) (keys : List GnupgKey) (k : GnupgKey) (s : ContractSignature)
    → find_first (key_has_id s.gnupg_key_id) keys ≡ some k
    → gpg.verify k.public_key s.signature_file s.signature_hash ≡ true
    → checks_out gpg keys s ≡ true
known_key gpg keys k s found verified = rw (checks_out, found, verified) refl

good_result :
    (gpg : Gpg) (keys : List GnupgKey) (k : GnupgKey) (hash : Text) (s : ContractSignature)
    → find_first (key_has_id s.gnupg_key_id) keys ≡ some k
    → s.signature_hash ≡ hash
    → gpg.verify k.public_key s.signature_file hash ≡ true
    → result_of gpg keys (some hash) s ≡ record { identity_id = some k.identity_id; good = true }
unfolding result_of verify_signature_record
good_result gpg keys k hash s found same verified =
    let matches : hash_matches (some hash) s.signature_hash ≡ true =
      rw same (ground (arith, text_eq_refl hash)) in
    let checked = known_key gpg keys k s found (rw same verified) in
    rw (result_of, verify_signature_record, matches, checked, found) refl

verdict_both :
    (p c : ℕ)
    → (c == p) ≡ false
    → verdict (some p) (
        record { identity_id = some p; good = true }
        ∷ record { identity_id = some c; good = true }
        ∷ [])
      ≡ record { provider_signed = true; customer_signed = true }
unfolding verdict
verdict_both p c other = ground (arith, other)

of_sorted :
    (gpg : Gpg) (current : Option Text) (provider : Option ℕ) (file : ℕ) (db : Db)
    (xs : List ContractSignature) (rs : List SignatureResult)
    → sort_signed (find_many (of_file file) db.signatures) ≡ xs
    → map (result_of gpg db.keys current) xs ≡ rs
    → verify_contract_signatures gpg current provider file db ≡ verdict provider rs
unfolding verify_contract_signatures
of_sorted gpg current provider file db xs rs sorted results =
    ap (λ ys. verdict provider (map (result_of gpg db.keys current) ys)) sorted
    ∙ ap (verdict provider) results

-- The verdict on exactly the two signatures.
pub two_signatures :
    (gpg : Gpg) (keys : List GnupgKey) (file : ℕ) (kp kc : GnupgKey) (hash : Text)
    (r s : ContractSignature) (xs : List ContractSignature)
    → find_many (of_file file) xs ≡ r ∷ s ∷ []
    → r.signed_at ≤ s.signed_at
    → find_first (key_has_id r.gnupg_key_id) keys ≡ some kp
    → find_first (key_has_id s.gnupg_key_id) keys ≡ some kc
    → (kc.identity_id == kp.identity_id) ≡ false
    → r.signature_hash ≡ hash
    → s.signature_hash ≡ hash
    → gpg.verify kp.public_key r.signature_file hash ≡ true
    → gpg.verify kc.public_key s.signature_file hash ≡ true
    → verify_contract_signatures gpg
        (some hash)
        (some kp.identity_id)
        file
        (record { keys = keys; signatures = xs })
      ≡ record { provider_signed = true; customer_signed = true }
unfolding sort_signed insert_signed
two_signatures gpg keys file kp kc hash r s xs both order fp fc other hr hs vp vc =
    let sorted : sort_signed (find_many (of_file file) xs) ≡ r ∷ s ∷ [] =
      rw both (ground (arith, order)) in
    let results : map (result_of gpg keys (some hash)) (r ∷ s ∷ [])
        ≡ record { identity_id = some kp.identity_id; good = true }
          ∷ record { identity_id = some kc.identity_id; good = true }
          ∷ [] =
      rw (good_result gpg keys kp hash r fp hr vp, good_result gpg keys kc hash s fc hs vc) refl in
    of_sorted gpg (some hash) (some kp.identity_id) file _ _ _ sorted results
    ∙ verdict_both kp.identity_id kc.identity_id other
