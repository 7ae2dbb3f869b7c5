-- ===== src/Signatures/Both.antt =====
-- Both parties sign a file, and the file is verified.
use service_hub_backend.Signatures.Checking.{verify_contract_signatures}
use service_hub_backend.Base.Text.{Text}
use service_hub_backend.Base.Table.{find_first-append, find_first, find_many}
use service_hub_backend.Base.{
  false, true, ◌≤◌, Bool, Bool-cases, List, [], arith, inl, inr, none, refl, some, ℕ, ◌++◌, ◌==◌,
  ◌∷◌, ◌≡◌,
}
use service_hub_backend.Contracts.Rows.{answered}
use service_hub_backend.Signatures.{
  sign_contract, sign_file, signed_by, assert_provider_signature_valid, key_has_id, latest_key,
  turn_check, verify_signature_record, ContractSignature, FileForSigning, GnupgKey, SigningReplies,
  after_signing, make_signature, of_file_and_key, of_file_by, write_signature, Gpg, Db,
}
use service_hub_backend.Signatures.Counted.{known_key, of_file, two_signatures}

-- The answers with which nothing stands in the way of a signature.
abbrev pub ready : FileForSigning → ℕ × Text → SigningReplies
ready info key = record {
  file_info = answered info;
  ekyc_verified = λ i. answered tt;
  unlock = answered key;
  activates = answered tt;
}

abbrev pub signature_row : ℕ → ℕ → ℕ → ℕ → Text → Text → ContractSignature
signature_row key now file gnupg_key signature hash = record {
  id = key;
  contract_file_id = file;
  gnupg_key_id = gnupg_key;
  signature_file = signature;
  signature_hash = hash;
  signed_at = now;
}

unsigned-by :
    (file identity : ℕ) (keys : List GnupgKey) (xs : List ContractSignature)
    → find_many (of_file file) xs ≡ []
    → find_first (of_file_by file identity keys) xs ≡ none
unfolding of_file_by
unsigned-by file identity keys [] h = refl
unsigned-by file identity keys (x ∷ xs) h = ground (arith, h, unsigned-by file identity keys xs)

unsigned-key :
    (file key : ℕ) (xs : List ContractSignature)
    → find_many (of_file file) xs ≡ []
    → find_first (of_file_and_key file key) xs ≡ none
unsigned-key file key [] h = refl
unsigned-key file key (x ∷ xs) h = ground (arith, h, unsigned-key file key xs)

of_file-append :
    (file : ℕ) (xs ys : List ContractSignature)
    → find_many (of_file file) (xs ++ ys)
      ≡ find_many (of_file file) xs ++ find_many (of_file file) ys
of_file-append file [] ys = refl
of_file-append file (x ∷ xs) ys = ground (arith, of_file-append file xs ys)

-- A signer without an earlier signature, with an unlocked key that signs.
make_signature_first :
    (gpg : Gpg) (info : FileForSigning) (gnupg_key : ℕ) (private : Text) (key now identity file : ℕ)
    (db : Db) (signature : Text)
    → find_first (of_file_by file identity db.keys) db.signatures ≡ none
    → gpg.detach_sign private info.hash_contract ≡ some signature
    → make_signature gpg (ready info (gnupg_key, private)) key now identity file info db ≡ (
      answered tt,
      record db {
        signatures =
            db.signatures
            ++ (signature_row key now file gnupg_key signature info.hash_contract ∷ []);
      },
    )
unfolding make_signature write_signature after_signing
make_signature_first gpg info gnupg_key private key now identity file db signature fresh signs =
    elim (Bool-cases info.is_provider_signing) [
      | inl e ↦ rw (make_signature, fresh, signs, after_signing, e, fresh) refl
      | inr e ↦ rw (make_signature, fresh, signs, after_signing, e, fresh) refl
    ]

abbrev pub info_of : Text → ℕ → ℕ → Bool → FileForSigning
info_of hash customer_id provider_id side = record {
  hash_contract = hash;
  customer_id = customer_id;
  provider_identity_id = some provider_id;
  is_provider_signing = side;
}

-- The provider's signature opens the way for the customer's.
provider_turn :
    (gpg : Gpg) (file key now : ℕ) (kp : GnupgKey) (signature hash : Text) (db : Db)
    → latest_key kp.identity_id db.keys ≡ some kp
    → find_first (key_has_id kp.id) db.keys ≡ some kp
    → find_many (of_file file) db.signatures ≡ []
    → gpg.verify kp.public_key signature hash ≡ true
    → let row = signature_row key now file kp.id signature hash in
      turn_check gpg file kp.identity_id false
        (record db { signatures = db.signatures ++ (row ∷ []) })
      ≡ answered tt
unfolding turn_check assert_provider_signature_valid verify_signature_record
provider_turn gpg file key now kp signature hash db latest found empty verified =
    let row = signature_row key now file kp.id signature hash in
    let first : find_first (of_file_and_key file kp.id) (db.signatures ++ (row ∷ [])) ≡ some row =
      ground (
        arith,
        find_first-append (of_file_and_key file kp.id) db.signatures (row ∷ []),
        unsigned-key file kp.id db.signatures empty,
      ) in
    let valid : (verify_signature_record gpg db.keys none row).valid ≡ true =
      known_key gpg db.keys kp row found verified in
    rw (turn_check, assert_provider_signature_valid, latest, first, valid) refl

-- A first signature by a party whose turn it is.
sign_contract_first :
    (gpg : Gpg) (hash : Text) (customer_id p : ℕ) (side : Bool) (gnupg_key : ℕ) (private : Text)
    (key now identity file : ℕ) (db : Db) (signature : Text)
    → turn_check gpg file p side db ≡ answered tt
    → find_first (of_file_by file identity db.keys) db.signatures ≡ none
    → gpg.detach_sign private hash ≡ some signature
    → sign_contract gpg
        (ready (info_of hash customer_id p side) (gnupg_key, private))
        key
        now
        identity
        file
        db
      ≡ (
        answered tt,
        record db {
          signatures = db.signatures ++ (signature_row key now file gnupg_key signature hash ∷ []);
        },
      )
unfolding sign_contract sign_file
sign_contract_first gpg hash customer_id p side gnupg_key private key now identity file db signature
      turn fresh signs =
    rw (sign_contract, sign_file, turn)
      (make_signature_first gpg (info_of hash customer_id p side) gnupg_key private key now identity
        file db signature fresh signs)

-- Another party's signature is no signature of this one.
other_signed :
    (file key now : ℕ) (kp : GnupgKey) (c : ℕ) (signature hash : Text) (db : Db)
    → find_first (key_has_id kp.id) db.keys ≡ some kp
    → find_many (of_file file) db.signatures ≡ []
    → (kp.identity_id == c) ≡ false
    → find_first
        (of_file_by file c db.keys)
        (db.signatures ++ (signature_row key now file kp.id signature hash ∷ []))
      ≡ none
unfolding of_file_by signed_by
other_signed file key now kp c signature hash db found empty other =
    let row = signature_row key now file kp.id signature hash in
    let not_own : of_file_by file c db.keys row ≡ false =
      rw (of_file_by, signed_by, found, other) (ground arith) in
    ground (
      arith,
      find_first-append (of_file_by file c db.keys) db.signatures (row ∷ []),
      unsigned-by file c db.keys db.signatures empty,
      not_own,
    )

-- Provider and customer sign a file that nobody has signed, each with a key of their own whose
-- signatures verify, the provider's being their latest, the customer no earlier than the provider,
-- while eKYC and the activation call answer favourably: both calls succeed, and the
-- verification of the file's signatures then counts both parties as having signed.
pub sign_contract_both :
    (gpg : Gpg) (hash : Text) (customer_id file : ℕ) (kp kc : GnupgKey) (pp pc sp sc : Text)
    (key now key' now' : ℕ) (db : Db)
    → latest_key kp.identity_id db.keys ≡ some kp
    → find_first (key_has_id kp.id) db.keys ≡ some kp
    → find_first (key_has_id kc.id) db.keys ≡ some kc
    → (kc.identity_id == kp.identity_id) ≡ false
    → find_many (λ s. s.contract_file_id == file) db.signatures ≡ []
    → now ≤ now'
    → gpg.detach_sign pp hash ≡ some sp
    → gpg.detach_sign pc hash ≡ some sc
    → gpg.verify kp.public_key sp hash ≡ true
    → gpg.verify kc.public_key sc hash ≡ true
    → let p = kp.identity_id in
      let c = kc.identity_id in
      let provider =
        sign_contract gpg (ready (info_of hash customer_id p true) (kp.id, pp)) key now p file db in
      let customer =
        sign_contract gpg
          (ready (info_of hash customer_id p false) (kc.id, pc))
          key'
          now'
          c
          file
          provider.1 in
      (provider.0 ≡ answered tt)
      × (customer.0 ≡ answered tt)
      × (verify_contract_signatures gpg (some hash) (some p) file customer.1
          ≡ record { provider_signed = true; customer_signed = true })
unfolding turn_check
sign_contract_both gpg hash customer_id file kp kc pp pc sp sc key now key' now' db latest fp fc
      other empty order signs_p signs_c verifies_p verifies_c =
    let row = signature_row key now file kp.id sp hash in
    let row' = signature_row key' now' file kc.id sc hash in
    let db' = record db { signatures = db.signatures ++ (row ∷ []) } in
    let provider =
      sign_contract_first gpg hash customer_id kp.identity_id true kp.id pp key now kp.identity_id
        file db sp refl (unsigned-by file kp.identity_id db.keys db.signatures empty) signs_p in
    let customer =
      sign_contract_first gpg hash customer_id kp.identity_id false kc.id pc key' now'
        kc.identity_id file db' sc
        (provider_turn gpg file key now kp sp hash db latest fp empty verifies_p)
        (other_signed file key now kp kc.identity_id sp hash db fp empty (ground (arith, other)))
        signs_c in
    let both : find_many (of_file file) ((db.signatures ++ (row ∷ [])) ++ (row' ∷ []))
        ≡ row ∷ row' ∷ [] =
      ground (
        arith,
        of_file-append file (db.signatures ++ (row ∷ [])) (row' ∷ []),
        of_file-append file db.signatures (row ∷ []),
        empty,
      ) in
    rw (provider, customer)
      (
        refl,
        refl,
        two_signatures gpg db.keys file kp kc hash row row' _ both order fp fc other refl refl
            verifies_p verifies_c,
      )
