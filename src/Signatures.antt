-- ===== src/Signatures.antt =====
-- apps/signature-service/src/signatures/signatures.service.ts: signing the hash of a contract's
-- file, and verifying the signatures of a file. GnuPG, the unlocking of a private key and the
-- answers of the contract and identity services are parameters. No other call writes between the
-- query for an earlier signature and the writing of the new one.
pub mod Keys
pub mod Custody
pub mod Checking
pub mod Signing
pub mod Counted
pub mod Both
mod Tests
use service_hub_backend.Base.Table.{find_first, find_many, update_many}
use service_hub_backend.Base.Text.{Text, is_empty, text_eq}
use service_hub_backend.Base.{
  Bool, List, Option, [], all, false, if◌then◌else◌, leb, length, map, none, not, same_key, some,
  true, ℕ, ◌&&◌, ◌++◌, ◌==◌, ◌∷◌,
}
use service_hub_backend.Contracts.Rows.{Verification, Response, answered, rejected, raised}

pub data GnupgKeyStatus : Type 0 where
  active revoked expired : GnupgKeyStatus

-- Without `keyId`, the end of the fingerprint, and two constant columns.
pub record GnupgKey : Type 0 where
  pub id : ℕ
  pub identity_id : ℕ
  pub fingerprint : Text
  pub public_key : Text
  pub encrypted_private_key : Text
  pub encryption_salt : Text
  pub encryption_iv : Text
  pub encryption_auth_tag : Text
  pub status : GnupgKeyStatus
  pub created_at : ℕ
  pub expires_at : Option ℕ

pub record ContractSignature : Type 0 where
  pub id : ℕ
  pub contract_file_id : ℕ
  pub gnupg_key_id : ℕ
  pub signature_file : Text
  pub signature_hash : Text
  pub signed_at : ℕ

pub record Db : Type 0 where
  pub keys : List GnupgKey
  pub signatures : List ContractSignature

-- `gpg --verify` with a public key, a signature and the data, and `gpg --detach-sign` with a
-- private key, which may fail.
pub record Gpg : Type 0 where
  pub verify : Text → Text → Text → Bool
  pub detach_sign : Text → Text → Option Text

-- What the contract service answers for a file that is to be signed.
pub record FileForSigning : Type 0 where
  pub hash_contract : Text
  pub customer_id : ℕ
  pub provider_identity_id : Option ℕ
  pub is_provider_signing : Bool

-- The answers of other services, and the key of the signer with its private part.
pub record SigningReplies : Type 0 where
  pub file_info : Response FileForSigning
  pub ekyc_verified : ℕ → Response Unit
  pub unlock : Response (ℕ × Text)
  pub activates : Response Unit

abbrev pub key_has_id : ℕ → GnupgKey → Bool
key_has_id i k = k.id == i

-- `gnupgKey: { is: { identityId } }`
pub signed_by : ℕ → List GnupgKey → ContractSignature → Bool
signed_by identity_id keys s = elim (find_first (key_has_id s.gnupg_key_id) keys) [
  | none ↦ false
  | some k ↦ k.identity_id == identity_id
]

pub record Verified : Type 0 where
  pub valid : Bool
  pub hash_valid : Bool

-- `currentContractHash ? … : true`; an empty text is falsy.
abbrev pub hash_matches : Option Text → Text → Bool
hash_matches none signature_hash = true
hash_matches (some current) signature_hash =
    if is_empty current then true else text_eq current signature_hash

-- The signature's key exists: the column is a foreign key.
abbrev pub checks_out : Gpg → List GnupgKey → ContractSignature → Bool
checks_out gpg keys s = elim (find_first (key_has_id s.gnupg_key_id) keys) [
  | none ↦ false
  | some k ↦ gpg.verify k.public_key s.signature_file s.signature_hash
]

pub verify_signature_record : Gpg → List GnupgKey → Option Text → ContractSignature → Verified
verify_signature_record gpg keys current s =
    if hash_matches current s.signature_hash
    then record { valid = checks_out gpg keys s; hash_valid = true }
    else record { valid = false; hash_valid = false }

-- The latest key of an identity.
pub latest_key : ℕ → List GnupgKey → Option GnupgKey
latest_key identity_id [] = none
latest_key identity_id (k ∷ ks) =
    let rest = latest_key identity_id ks in
    if k.identity_id == identity_id
    then elim rest [
      | none ↦ some k
      | some l ↦ if leb l.created_at k.created_at then some k else some l
    ]
    else rest

abbrev pub of_file_and_key : ℕ → ℕ → ContractSignature → Bool
of_file_and_key file key s = s.contract_file_id == file && s.gnupg_key_id == key

pub assert_provider_signature_valid : Gpg → ℕ → ℕ → Db → Response Unit
unfolding latest_key verify_signature_record
assert_provider_signature_valid gpg file provider db = elim (latest_key provider db.keys) [
  | none ↦ rejected 400
  | some k ↦ elim (find_first (of_file_and_key file k.id) db.signatures) [
    | none ↦ rejected 400
    | some s ↦
        if (verify_signature_record gpg db.keys none s).valid then answered tt else rejected 400
  ]
]

abbrev pub of_file_by : ℕ → ℕ → List GnupgKey → ContractSignature → Bool
unfolding signed_by
of_file_by file identity keys s = s.contract_file_id == file && signed_by identity keys s

-- A signature of the same signer is replaced, else one is added.
pub write_signature : ℕ → ℕ → ℕ → ℕ → Text → Text → Option ContractSignature → Db → Db
write_signature key now file gnupg_key signature hash none db = record db {
  signatures =
      db.signatures
      ++ (record {
        id = key;
        contract_file_id = file;
        gnupg_key_id = gnupg_key;
        signature_file = signature;
        signature_hash = hash;
        signed_at = now;
      }
          ∷ []);
}
write_signature key now file gnupg_key signature hash (some old) db = record db {
  signatures =
      update_many (λ s. s.id == old.id)
        (λ s. record s {
          gnupg_key_id = gnupg_key;
          signature_file = signature;
          signature_hash = hash;
          signed_at = now;
        })
        db.signatures;
}

abbrev has_hash : Text → Option ContractSignature → Bool
has_hash hash none = false
has_hash hash (some s) = text_eq s.signature_hash hash

-- After the row is written the contract service is told of a customer's signature; an exception
-- other than its own becomes 500.
pub after_signing : SigningReplies → Bool → Db → Response Unit × Db
after_signing replies true db = (answered tt, db)
after_signing replies false db = elim replies.activates [
  | answered u ↦ (answered tt, db)
  | rejected code ↦ (rejected code, db)
  | raised ↦ (rejected 500, db)
]

pub make_signature : Gpg → SigningReplies → ℕ → ℕ → ℕ → ℕ → FileForSigning → Db → Response Unit × Db
unfolding write_signature after_signing
make_signature gpg replies key now identity file info db = elim replies.unlock [
  | rejected code ↦ (rejected code, db)
  | raised ↦ (raised, db)
  | answered (gnupg_key, private) ↦
      let existing = find_first (of_file_by file identity db.keys) db.signatures in
      if has_hash info.hash_contract existing
      then (rejected 400, db)
      else elim (gpg.detach_sign private info.hash_contract) [
        | none ↦ (rejected 500, db)
        | some signature ↦
            after_signing replies info.is_provider_signing
              (write_signature key now file gnupg_key signature info.hash_contract existing db)
      ]
]

-- The customer signs after the provider, whose signature must still verify.
pub turn_check : Gpg → ℕ → ℕ → Bool → Db → Response Unit
unfolding assert_provider_signature_valid
turn_check gpg file provider true db = answered tt
turn_check gpg file provider false db = assert_provider_signature_valid gpg file provider db

-- `Promise.all` over the customer and the provider; where both fail, the customer's failure counts.
pub ekyc_check : SigningReplies → ℕ → ℕ → Response Unit
ekyc_check replies customer provider = elim (replies.ekyc_verified customer) [
  | answered u ↦ replies.ekyc_verified provider
  | rejected code ↦ rejected code
  | raised ↦ raised
]

pub sign_file : Gpg → SigningReplies → ℕ → ℕ → ℕ → ℕ → FileForSigning → ℕ → Db → Response Unit × Db
unfolding ekyc_check turn_check make_signature
sign_file gpg replies key now identity file info provider db =
    elim (ekyc_check replies info.customer_id provider) [
      | rejected code ↦ (rejected code, db)
      | raised ↦ (raised, db)
      | answered u ↦ elim (turn_check gpg file provider info.is_provider_signing db) [
        | rejected code ↦ (rejected code, db)
        | raised ↦ (raised, db)
        | answered v ↦ make_signature gpg replies key now identity file info db
      ]
    ]

-- `key` and `now` are those of the new row.
pub sign_contract : Gpg → SigningReplies → ℕ → ℕ → ℕ → ℕ → Db → Response Unit × Db
unfolding sign_file
sign_contract gpg replies key now identity file db = elim replies.file_info [
  | rejected code ↦ (rejected code, db)
  | raised ↦ (raised, db)
  | answered info ↦ elim info.provider_identity_id [
    | none ↦ (rejected 400, db)
    | some provider ↦ sign_file gpg replies key now identity file info provider db
  ]
]
