-- ===== src/Signatures/Keys.antt =====
-- apps/signature-service/src/keys/keys.service.ts: `createKey`, and the unlocking of a private key
-- for a signature. What GnuPG prints is an argument, and so are scrypt, AES-256-GCM with its base64
-- texts, the random salt and vector, and the calendar. What stays in the keyring is not modelled.
use service_hub_backend.Base.Table.{find_first, find_many}
use service_hub_backend.Base.Text.{Text, codes, is_empty, text_eq}
use service_hub_backend.Base.{
  Bool, List, Option, [], false, if◌then◌else◌, leb, ltb, length, none, not, some, suc, true, zero,
  ℕ, ◌&&◌, ◌||◌, ◌+◌, ◌-◌, ◌*◌, ◌++◌, ◌==◌, ◌∷◌,
}
use service_hub_backend.Contracts.Provider.{starts_with}
use service_hub_backend.Contracts.Rows.{Response, answered, raised, rejected}
use service_hub_backend.Signatures.{
  Db, GnupgKey, GnupgKeyStatus, active, expired, latest_key, revoked,
}

-- scrypt of a passphrase and a salt; AES-256-GCM with a key, a vector and a text, whose result is
-- the encrypted text with its tag; and its inverse, which may fail.
pub record Crypto : Type 0 where
  pub derive : Text → Text → Text
  pub encrypt : Text → Text → Text → Text × Text
  pub decrypt : Text → Text → Text → Text → Option Text

-- `setDate`, `setMonth` and `setFullYear`: a time and how much is added. A sum beyond the range of
-- `Date` is an Invalid Date: `none`.
pub record Calendar : Type 0 where
  pub add_days : ℕ → ℕ → Option ℕ
  pub add_months : ℕ → ℕ → Option ℕ
  pub add_years : ℕ → ℕ → Option ℕ

-- What happens outside the service while a key is made: `none` and `false` are failures.
pub record KeyReplies : Type 0 where
  pub ekyc_verified : Response Unit
  pub home_made : Bool
  pub generated : Bool
  pub listing : Option Text
  pub public_key_of : Text → Option Text
  pub private_key_of : Text → Text → Option Text
  pub salt : Text
  pub iv : Text
  pub secret_deleted : Bool

pub record NewKey : Type 0 where
  pub name : Text
  pub email : Text
  pub passphrase : Text
  pub expires_in : Option Text

-- `split(separator)` at one character.
unfoldable pub split_at : ℕ → Text → List Text
split_at c [] = [] ∷ []
split_at c (x ∷ xs) =
    let rest = split_at c xs in
    if x == c
    then [] ∷ rest
    else elim rest [ [] ↦ (x ∷ []) ∷ [] | part ∷ parts ↦ (x ∷ part) ∷ parts ]

abbrev pub nth_part : ℕ → List Text → Option Text
nth_part n [] = none
nth_part zero (x ∷ xs) = some x
nth_part (suc n) (x ∷ xs) = nth_part n xs

unfoldable pub extract_fingerprint : Text → Option Text
unfolding split_at starts_with
extract_fingerprint output = elim (find_first (starts_with (codes "fpr:")) (split_at 10 output)) [
  | none ↦ none
  | some line ↦ nth_part 9 (split_at 58 line)
]

-- `/^(\d+)([dmy])$/`: the number read so far, whether it has a digit, and the rest.
unfoldable pub read_period : ℕ → Bool → Text → Option (ℕ × ℕ)
read_period n seen [] = none
read_period n seen (x ∷ xs) =
    let rest = read_period (n * 10 + (x - 48)) true xs in
    if leb 48 x && leb x 57
    then rest
    else if seen && (x == 100 || x == 109 || x == 121) && is_empty xs
    then some (n, x)
    else none

-- No expiry, an expiry, or an Invalid Date.
pub data Expiry : Type 0 where
  never invalid : Expiry
  expires_on : ℕ → Expiry

abbrev pub as_expiry : Option ℕ → Expiry
as_expiry none = invalid
as_expiry (some t) = expires_on t

unfoldable pub calculate_expires_at : Calendar → ℕ → Text → Expiry
unfolding read_period
calculate_expires_at calendar now expires_in = elim (read_period 0 false expires_in) [
  | none ↦ never
  | some (value, unit) ↦
      if unit == 100
      then as_expiry (calendar.add_days now value)
      else if unit == 109
      then as_expiry (calendar.add_months now value)
      else as_expiry (calendar.add_years now value)
]

abbrev pub is_active : GnupgKeyStatus → Bool
is_active active = true
is_active revoked = false
is_active expired = false

abbrev pub active_key_of : ℕ → GnupgKey → Bool
active_key_of identity k = k.identity_id == identity && is_active k.status

-- The default of `expiresIn`.
abbrev pub period_of : NewKey → Text
period_of input = elim input.expires_in [ none ↦ codes "2y" | some period ↦ period ]

abbrev encrypt_private_key : Crypto → KeyReplies → Text → Text → Text × Text
encrypt_private_key crypto replies private passphrase =
    crypto.encrypt (crypto.derive passphrase replies.salt) replies.iv private

-- A failure of any kind is the one answer 400.
abbrev decrypt_private_key : Crypto → GnupgKey → Text → Response Text
decrypt_private_key crypto k passphrase =
    elim (crypto.decrypt (crypto.derive passphrase k.encryption_salt) k.encryption_iv
      k.encrypted_private_key k.encryption_auth_tag) [
        | none ↦ rejected 400
        | some private ↦ answered private
      ]

abbrev pub is_valid : Expiry → Bool
is_valid never = true
is_valid invalid = false
is_valid (expires_on t) = true

-- The column; a row with an Invalid Date is refused.
abbrev pub stored_expiry : Expiry → Option ℕ
stored_expiry never = none
stored_expiry invalid = none
stored_expiry (expires_on t) = some t

unfoldable pub new_key :
    Crypto → Calendar → KeyReplies → ℕ → ℕ → ℕ → NewKey → Text → Text → Text → GnupgKey
unfolding calculate_expires_at
new_key crypto calendar replies key now identity input fingerprint public private =
    let sealed = encrypt_private_key crypto replies private input.passphrase in
    record {
      id = key;
      identity_id = identity;
      fingerprint = fingerprint;
      public_key = public;
      encrypted_private_key = sealed.0;
      encryption_salt = replies.salt;
      encryption_iv = replies.iv;
      encryption_auth_tag = sealed.1;
      status = active;
      created_at = now;
      expires_at = stored_expiry (calculate_expires_at calendar now (period_of input));
    }

-- The transaction, which refuses an Invalid Date and a taken fingerprint, and the deletion of the secret key after it.
unfoldable pub store_key : KeyReplies → ℕ → Bool → GnupgKey → Db → Response Unit × Db
store_key replies identity dated row db = elim (find_first (active_key_of identity) db.keys) [
  | some other ↦ (rejected 400, db)
  | none ↦ elim (find_first (λ k. text_eq k.fingerprint row.fingerprint) db.keys) [
    | some other ↦ (rejected 500, db)
    | none ↦
        if not dated
        then (rejected 500, db)
        else let stored = record db { keys = db.keys ++ (row ∷ []) } in
          if replies.secret_deleted then (answered tt, stored) else (rejected 500, stored)
  ]
]

-- Between the call of GnuPG and the transaction every failure ends as 500.
unfoldable pub make_key :
    Crypto → Calendar → KeyReplies → ℕ → ℕ → ℕ → NewKey → Text → Db → Response Unit × Db
unfolding store_key new_key calculate_expires_at
make_key crypto calendar replies key now identity input output db =
    elim (extract_fingerprint output) [
      | none ↦ (rejected 500, db)
      | some fingerprint ↦
          if is_empty fingerprint
          then (rejected 500, db)
          else elim (replies.public_key_of fingerprint) [
            | none ↦ (rejected 500, db)
            | some public ↦ elim (replies.private_key_of fingerprint input.passphrase) [
              | none ↦ (rejected 500, db)
              | some private ↦
                  store_key replies identity
                    (is_valid (calculate_expires_at calendar now (period_of input)))
                    (new_key crypto calendar replies key now identity input fingerprint public
                      private)
                    db
            ]
          ]
    ]

unfoldable pub generate_key :
    Crypto → Calendar → KeyReplies → ℕ → ℕ → ℕ → NewKey → Db → Response Unit × Db
unfolding make_key
generate_key crypto calendar replies key now identity input db =
    if not replies.home_made
    then (raised, db)
    else if not replies.generated
    then (rejected 500, db)
    else elim replies.listing [
      | none ↦ (rejected 500, db)
      | some output ↦ make_key crypto calendar replies key now identity input output db
    ]

-- `key` and `now` are those of the new row; an identity is never the empty text.
unfoldable pub create_key :
    Crypto → Calendar → KeyReplies → ℕ → ℕ → ℕ → NewKey → Db → Response Unit × Db
unfolding generate_key
create_key crypto calendar replies key now identity input db =
    if is_empty input.name || is_empty input.email || is_empty input.passphrase
    then (rejected 400, db)
    else elim replies.ekyc_verified [
      | rejected code ↦ (rejected code, db)
      | raised ↦ (raised, db)
      | answered u ↦
          if ltb (length input.passphrase) 8
          then (rejected 400, db)
          else generate_key crypto calendar replies key now identity input db
    ]

abbrev pub is_past : ℕ → Option ℕ → Bool
is_past now none = false
is_past now (some t) = ltb t now

unfoldable pub get_decrypted_private_key_for_signing :
    Crypto → ℕ → ℕ → Text → Db → Response (ℕ × Text × Text)
unfolding latest_key
get_decrypted_private_key_for_signing crypto now identity passphrase db =
    elim (latest_key identity (find_many (λ k. is_active k.status) db.keys)) [
      | none ↦ rejected 404
      | some k ↦
          if is_past now k.expires_at
          then rejected 400
          else elim (decrypt_private_key crypto k passphrase) [
            | rejected code ↦ rejected code
            | raised ↦ raised
            | answered private ↦ answered (k.id, k.fingerprint, private)
          ]
    ]
