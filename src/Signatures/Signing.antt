-- ===== src/Signatures/Signing.antt =====
-- What a signature stands on, and what the two signatures of a file come to.
use service_hub_backend.Contracts.Rows.{Response-cases, answered}
use service_hub_backend.Base.Table.{find_first}
use service_hub_backend.Base.{
  Bool-cases, Option-cases, arith, false, inl, inr, none, some, true, ℕ, ◌≡◌,
}
use service_hub_backend.Signatures.{
  ContractSignature, FileForSigning, GnupgKey, SigningReplies, assert_provider_signature_valid,
  ekyc_check, latest_key, of_file_and_key, sign_contract, sign_file, turn_check,
  verify_signature_record, Gpg, Db,
}

provider_checked :
    (gpg : Gpg) (file p : ℕ) (db : Db) (u : Unit)
    → assert_provider_signature_valid gpg file p db ≡ answered u
    → (k : GnupgKey) × (s : ContractSignature) × (latest_key p db.keys ≡ some k)
      × (find_first (of_file_and_key file k.id) db.signatures ≡ some s)
      × ((verify_signature_record gpg db.keys none s).valid ≡ true)
unfolding assert_provider_signature_valid
provider_checked gpg file p db u h = elim (Option-cases (latest_key p db.keys)) [
  | inl e ↦ ground (arith, rw (assert_provider_signature_valid, e) at h)
  | inr (k, e) ↦ elim (Option-cases (find_first (of_file_and_key file k.id) db.signatures)) [
    | inl f ↦ ground (arith, rw (assert_provider_signature_valid, e, f) at h)
    | inr (s, f) ↦ elim (Bool-cases (verify_signature_record gpg db.keys none s).valid) [
      | inl v ↦ (k, s, e, f, v)
      | inr v ↦ ground (arith, rw (assert_provider_signature_valid, e, f, v) at h)
    ]
  ]
]

sign_file_checked :
    (gpg : Gpg) (replies : SigningReplies) (key now identity file : ℕ) (info : FileForSigning)
    (p : ℕ) (db : Db) (u : Unit)
    → info.is_provider_signing ≡ false
    → (sign_file gpg replies key now identity file info p db).0 ≡ answered u
    → (v : Unit) × (assert_provider_signature_valid gpg file p db ≡ answered v)
unfolding sign_file turn_check
sign_file_checked gpg replies key now identity file info p db u side h =
    elim (Response-cases (ekyc_check replies info.customer_id p)) [
      | inr (inl (code, e)) ↦ ground (arith, rw (sign_file, e) at h)
      | inr (inr e) ↦ ground (arith, rw (sign_file, e) at h)
      | inl (w, e) ↦ elim (Response-cases (assert_provider_signature_valid gpg file p db)) [
        | inl (v, k) ↦ (v, k)
        | inr (inl (code, k)) ↦ ground (arith, rw (sign_file, e, side, turn_check, k) at h)
        | inr (inr k) ↦ ground (arith, rw (sign_file, e, side, turn_check, k) at h)
      ]
    ]

-- A customer's signature is accepted only where the provider's latest key has signed the file, and
-- that signature verifies with GnuPG.
pub sign_contract_after_provider :
    (gpg : Gpg) (replies : SigningReplies) (key now identity file : ℕ) (info : FileForSigning)
    (p : ℕ) (db : Db) (u : Unit)
    → replies.file_info ≡ answered info
    → info.provider_identity_id ≡ some p
    → info.is_provider_signing ≡ false
    → (sign_contract gpg replies key now identity file db).0 ≡ answered u
    → (k : GnupgKey) × (s : ContractSignature) × (latest_key p db.keys ≡ some k)
      × (find_first (of_file_and_key file k.id) db.signatures ≡ some s)
      × ((verify_signature_record gpg db.keys none s).valid ≡ true)
unfolding sign_contract
sign_contract_after_provider gpg replies key now identity file info p db u known provider side h =
    let (v, checked) =
      sign_file_checked gpg replies key now identity file info p db u side
        (rw (sign_contract, known, provider) at h) in
    provider_checked gpg file p db v checked
