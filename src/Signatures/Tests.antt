-- ===== src/Signatures/Tests.antt =====
-- Concrete runs of the signing and the verification of a file.
use service_hub_backend.Signatures.Keys.{
  Crypto, Calendar, KeyReplies, NewKey, calculate_expires_at, create_key, extract_fingerprint,
  get_decrypted_private_key_for_signing,
}
use service_hub_backend.Signatures.Custody.{create_key_unlocks, create_key_expired}
use service_hub_backend.Contracts.Rows.{rejected}
use service_hub_backend.Base.Text.{text_eq_refl, codes}
use service_hub_backend.Base.{◌+◌, ◌*◌, if◌then◌else◌}
use service_hub_backend.Base.Table.{find_first}
use service_hub_backend.Base.Text.{Text, text_eq}
use service_hub_backend.Base.{[], none, some, arith, refl, ◌≡◌, false, true, ◌∷◌, ◌++◌}
use service_hub_backend.Contracts.Rows.{answered}
use service_hub_backend.Signatures.{
  active, ContractSignature, Db, Gpg, GnupgKey, sign_contract, latest_key, of_file_by,
  of_file_and_key, verify_signature_record,
}
use service_hub_backend.Signatures.Both.{info_of, ready, sign_contract_both, signature_row}
use service_hub_backend.Signatures.Checking.{
  verify_contract_signatures, verify_contract_signatures_stale,
}
use service_hub_backend.Signatures.Signing.{sign_contract_after_provider}

-- A toy scheme: the signature of a hash is the key before the hash, and both halves of a key are
-- one text.
abbrev toy : Gpg
toy = record {
  verify = λ public signature content. text_eq signature (public ++ content);
  detach_sign = λ private content. some (private ++ content);
}

abbrev provider_key : GnupgKey
provider_key = record {
  id = 1;
  identity_id = 10;
  fingerprint = [];
  public_key = 5 ∷ [];
  encrypted_private_key = [];
  encryption_salt = [];
  encryption_iv = [];
  encryption_auth_tag = [];
  status = active;
  created_at = 1;
  expires_at = none;
}

abbrev customer_key : GnupgKey
customer_key = record {
  id = 2;
  identity_id = 20;
  fingerprint = [];
  public_key = 6 ∷ [];
  encrypted_private_key = [];
  encryption_salt = [];
  encryption_iv = [];
  encryption_auth_tag = [];
  status = active;
  created_at = 2;
  expires_at = none;
}

abbrev contract_hash : Text
contract_hash = 7 ∷ 8 ∷ []

abbrev unsigned : Db
unsigned = record { keys = provider_key ∷ customer_key ∷ []; signatures = [] }

abbrev provider_row : ContractSignature
provider_row = signature_row 100 50 9 1 (5 ∷ 7 ∷ 8 ∷ []) contract_hash

abbrev half_signed : Db
half_signed = record unsigned { signatures = provider_row ∷ [] }

verify_contract_signatures_stale_example :
    let v = verify_contract_signatures toy (some (7 ∷ 9 ∷ [])) (some 10) 9 half_signed in
    (v.provider_signed ≡ false) × (v.customer_signed ≡ false)
unfolding text_eq
verify_contract_signatures_stale_example =
    verify_contract_signatures_stale toy (7 ∷ 9 ∷ []) (some 10) 9 half_signed refl refl

sign_contract_after_provider_example :
    (k : GnupgKey) × (s : ContractSignature) × (latest_key 10 half_signed.keys ≡ some k)
    × (find_first (of_file_and_key 9 k.id) half_signed.signatures ≡ some s)
    × ((verify_signature_record toy half_signed.keys none s).valid ≡ true)
unfolding sign_contract text_eq of_file_by
sign_contract_after_provider_example =
    sign_contract_after_provider toy (ready (info_of contract_hash 20 10 false) (2, 6 ∷ [])) 101 60
      20 9 (info_of contract_hash 20 10 false) 10 half_signed tt refl refl refl refl

sign_contract_both_example :
    let provider =
      sign_contract toy
        (ready (info_of contract_hash 20 10 true) (1, 5 ∷ []))
        100
        50
        10
        9
        unsigned in
    let customer =
      sign_contract toy
        (ready (info_of contract_hash 20 10 false) (2, 6 ∷ []))
        101
        60
        20
        9
        provider.1 in
    (provider.0 ≡ answered tt)
    × (customer.0 ≡ answered tt)
    × (verify_contract_signatures toy (some contract_hash) (some 10) 9 customer.1
        ≡ record { provider_signed = true; customer_signed = true })
unfolding latest_key text_eq
sign_contract_both_example =
    sign_contract_both toy contract_hash 20 9 provider_key customer_key (5 ∷ []) (6 ∷ [])
      (5 ∷ 7 ∷ 8 ∷ []) (6 ∷ 7 ∷ 8 ∷ []) 100 50 101 60 unsigned refl refl refl refl refl
      (omega arith) refl refl refl refl

-- A toy cipher whose tag is the key.
abbrev toy_crypto : Crypto
toy_crypto = record {
  derive = λ passphrase salt. passphrase ++ salt;
  encrypt = λ k iv content. (content, k);
  decrypt = λ k iv content tag. if text_eq k tag then some content else none;
}

toy_inverse :
    (k iv content : Text)
    → toy_crypto.decrypt k iv
        (toy_crypto.encrypt k iv content).0
        (toy_crypto.encrypt k iv content).1
      ≡ some content
toy_inverse k iv content = rw (text_eq_refl k) refl

abbrev days_only : Calendar
days_only = record {
  add_days = λ now n. some (now + n);
  add_months = λ now n. some (now + n * 30);
  add_years = λ now n. some (now + n * 365);
}

abbrev gnupg_works : KeyReplies
gnupg_works = record {
  ekyc_verified = answered tt;
  home_made = true;
  generated = true;
  listing = some (codes "tru::1\nfpr:::::::::F:");
  public_key_of = λ f. some (1 ∷ f);
  private_key_of = λ f passphrase. some (2 ∷ f);
  salt = 3 ∷ [];
  iv = 4 ∷ [];
  secret_deleted = true;
}

abbrev key_input : NewKey
key_input = record {
  name = 78 ∷ [];
  email = 69 ∷ [];
  passphrase = codes "password";
  expires_in = some (codes "10d");
}

abbrev no_keys : Db
no_keys = record { keys = []; signatures = [] }

create_key_unlocks_example :
    (f : Text) × (private : Text) × (gnupg_works.private_key_of f key_input.passphrase
      ≡ some private)
    × (get_decrypted_private_key_for_signing toy_crypto 1005 10 key_input.passphrase
          (create_key toy_crypto days_only gnupg_works 1 1000 10 key_input no_keys).1
        ≡ answered (1, f, private))
unfolding create_key text_eq calculate_expires_at extract_fingerprint
create_key_unlocks_example =
    create_key_unlocks toy_crypto days_only gnupg_works 1 1000 10 key_input no_keys tt 1005
      toy_inverse refl refl

abbrev expired_key : GnupgKey
expired_key = record provider_key { expires_at = some 1010 }

abbrev one_expired : Db
one_expired = record { keys = expired_key ∷ []; signatures = [] }

create_key_expired_example :
    (get_decrypted_private_key_for_signing toy_crypto 2000 10 (codes "password") one_expired
      ≡ rejected 400)
    × (¬ (
        (u : Unit) × ((create_key toy_crypto days_only gnupg_works 2 2000 10 key_input
            one_expired).0
          ≡ answered u)))
unfolding latest_key
create_key_expired_example =
    create_key_expired toy_crypto days_only gnupg_works 2 2000 10 2000 key_input (codes "password")
      one_expired expired_key 1010 refl refl (omega arith)
