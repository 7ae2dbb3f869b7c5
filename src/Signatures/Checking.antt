-- ===== src/Signatures/Checking.antt =====
-- apps/signature-service/src/signatures/signatures.service.ts: `verifyContractSignatures`, and what
-- its verdict is worth.
use service_hub_backend.Contracts.Rows.{Verification}
use service_hub_backend.Base.Table.{find_first, find_many}
use service_hub_backend.Base.Text.{Text, is_empty, text_eq}
use service_hub_backend.Base.{
  Bool, List, Option, [], all, arith, false, if◌then◌else◌, leb, length, map, none, not, refl,
  same_key, some, true, ℕ, ◌&&◌, ◌==◌, ◌∷◌, ◌≡◌,
}
use service_hub_backend.Signatures.{
  key_has_id, verify_signature_record, Gpg, GnupgKey, ContractSignature, Db,
}

-- What `verifyContractSignatures` finds for one signature.
pub record SignatureResult : Type 0 where
  pub identity_id : Option ℕ
  pub good : Bool

unfoldable pub result_of : Gpg → List GnupgKey → Option Text → ContractSignature → SignatureResult
unfolding verify_signature_record
result_of gpg keys current s =
    let v = verify_signature_record gpg keys current s in
    record {
      identity_id = elim (find_first (key_has_id s.gnupg_key_id) keys) [
        | none ↦ none
        | some k ↦ some k.identity_id
      ];
      good = v.valid && v.hash_valid;
    }

-- `orderBy: { signedAt: 'asc' }`
unfoldable pub insert_signed : ContractSignature → List ContractSignature → List ContractSignature
insert_signed s [] = s ∷ []
insert_signed s (x ∷ xs) =
    if leb s.signed_at x.signed_at then s ∷ x ∷ xs else x ∷ insert_signed s xs

unfoldable pub sort_signed : List ContractSignature → List ContractSignature
unfolding insert_signed
sort_signed [] = []
sort_signed (s ∷ ss) = insert_signed s (sort_signed ss)

abbrev pub is_provider : Option ℕ → SignatureResult → Bool
is_provider none r = false
is_provider (some p) r = same_key r.identity_id p

-- The verdict on a list of results: everyone but the provider counts as the customer.
unfoldable pub verdict : Option ℕ → List SignatureResult → Verification
verdict provider rs =
    let customers = find_many (λ r. not (is_provider provider r)) rs in
    record {
      provider_signed = elim (find_first (is_provider provider) rs) [
        | none ↦ false
        | some r ↦ r.good
      ];
      customer_signed = not (length customers == 0) && all (λ r. r.good) customers;
    }

-- The hash and the provider are the contract service's answer.
unfoldable pub verify_contract_signatures : Gpg → Option Text → Option ℕ → ℕ → Db → Verification
unfolding result_of sort_signed verdict
verify_contract_signatures gpg current provider file db = verdict provider (
    map (result_of gpg db.keys current)
      (sort_signed (find_many (λ s. s.contract_file_id == file) db.signatures)))

no_good_customer :
    (rs : List SignatureResult)
    → all (λ r. not r.good) rs ≡ true
    → not (length rs == 0) && all (λ r. r.good) rs ≡ false
no_good_customer [] h = refl
no_good_customer (r ∷ rs) h = ground (arith, h)

all-find_many :
    (p q : SignatureResult → Bool) (rs : List SignatureResult)
    → all p rs ≡ true
    → all p (find_many q rs) ≡ true
all-find_many p q [] h = refl
all-find_many p q (r ∷ rs) h = ground (arith, all-find_many p q rs)

no_good_provider :
    (provider : Option ℕ) (rs : List SignatureResult)
    → all (λ r. not r.good) rs ≡ true
    → elim (find_first (is_provider provider) rs) [ none ↦ false | some r ↦ r.good ] ≡ false
no_good_provider provider [] h = refl
no_good_provider provider (r ∷ rs) h = ground (arith, no_good_provider provider rs)

-- The signatures of another hash than the present one.
abbrev pub is_stale : Text → ContractSignature → Bool
is_stale current s = not (text_eq current s.signature_hash)

stale_result :
    (gpg : Gpg) (keys : List GnupgKey) (current : Text) (s : ContractSignature)
    → is_empty current ≡ false
    → is_stale current s ≡ true
    → (result_of gpg keys (some current) s).good ≡ false
unfolding result_of verify_signature_record
stale_result gpg keys current s some_hash stale = ground (arith, some_hash, stale)

all-insert_signed :
    (p : ContractSignature → Bool) (s : ContractSignature) (xs : List ContractSignature)
    → p s ≡ true
    → all p xs ≡ true
    → all p (insert_signed s xs) ≡ true
unfolding insert_signed
all-insert_signed p s [] h k = ground (arith, h)
all-insert_signed p s (x ∷ xs) h k = ground (arith, h, k, all-insert_signed p s xs)

all-sort_signed :
    (p : ContractSignature → Bool) (xs : List ContractSignature)
    → all p xs ≡ true
    → all p (sort_signed xs) ≡ true
unfolding sort_signed
all-sort_signed p [] h = refl
all-sort_signed p (x ∷ xs) h =
    let (this, rest) : (p x ≡ true) × (all p xs ≡ true) = ground (arith, h) in
    all-insert_signed p x (sort_signed xs) this (all-sort_signed p xs rest)

all_stale :
    (gpg : Gpg) (keys : List GnupgKey) (current : Text) (xs : List ContractSignature)
    → is_empty current ≡ false
    → all (is_stale current) xs ≡ true
    → all (λ r. not r.good) (map (result_of gpg keys (some current)) xs) ≡ true
all_stale gpg keys current [] h k = refl
all_stale gpg keys current (x ∷ xs) h k =
    let (this, rest) : (is_stale current x ≡ true) × (all (is_stale current) xs ≡ true) =
      ground (arith, k) in
    let bad = stale_result gpg keys current x h this in
    rw bad (all_stale gpg keys current xs h rest)

-- Once the file's hash has changed, so that none of its signatures is over the present one,
-- neither party counts as having signed, whatever GnuPG says of the old signatures.
pub verify_contract_signatures_stale :
    (gpg : Gpg) (current : Text) (provider : Option ℕ) (file : ℕ) (db : Db)
    → is_empty current ≡ false
    → all (is_stale current) (find_many (λ s. s.contract_file_id == file) db.signatures) ≡ true
    → let v = verify_contract_signatures gpg (some current) provider file db in
      (v.provider_signed ≡ false) × (v.customer_signed ≡ false)
unfolding verify_contract_signatures verdict
verify_contract_signatures_stale gpg current provider file db some_hash stale =
    let sorted = sort_signed (find_many (λ s. s.contract_file_id == file) db.signatures) in
    let rs = map (result_of gpg db.keys (some current)) sorted in
    let bad : all (λ r. not r.good) rs ≡ true =
      all_stale gpg db.keys current sorted some_hash (all-sort_signed (is_stale current) _ stale) in
    (
      no_good_provider provider rs bad,
      no_good_customer (find_many (λ r. not (is_provider provider r)) rs)
          (all-find_many (λ r. not r.good) _ rs bad),
    )
