-- ===== src/Signatures/Custody.antt =====
-- A private key from its making to its use, and a key that has expired.
use service_hub_backend.Base.Table.{find_first, find_many}
use service_hub_backend.Base.Text.{Text, is_empty}
use service_hub_backend.Base.{
  Bool, Bool-cases, List, Option-cases, [], arith, false, inl, inr, none, refl, some, true, ℕ, ◌++◌,
  ◌∷◌, ◌≡◌, ◌<◌,
}
use service_hub_backend.Contracts.Rows.{answered, rejected}
use service_hub_backend.Signatures.Keys.{
  Crypto, Calendar, KeyReplies, NewKey, active_key_of, is_active, is_past, calculate_expires_at,
  create_key, extract_fingerprint, generate_key, get_decrypted_private_key_for_signing, make_key,
  new_key, period_of, stored_expiry, store_key,
}
use service_hub_backend.Signatures.{Db, GnupgKey, latest_key}

-- The row of a key that was stored.
abbrev with_key : Db → GnupgKey → Db
with_key db row = record db { keys = db.keys ++ (row ∷ []) }

store_key_answered :
    (replies : KeyReplies) (identity : ℕ) (dated : Bool) (row : GnupgKey) (db : Db) (u : Unit)
    → (store_key replies identity dated row db).0 ≡ answered u
    → (find_first (active_key_of identity) db.keys ≡ none)
      × ((store_key replies identity dated row db).1 ≡ with_key db row)
unfolding store_key
store_key_answered replies identity dated row db u h = ground (arith, h)

-- A successful call stores the row that is made of what GnuPG exported.
abbrev IsStored :
    Crypto → Calendar → KeyReplies → ℕ → ℕ → ℕ → NewKey → Db → Db → Text → Text → Text → Type 0
IsStored crypto calendar replies key now identity input db db' fingerprint public private =
    (replies.private_key_of fingerprint input.passphrase ≡ some private)
    × (find_first (active_key_of identity) db.keys ≡ none)
    × (db'
        ≡ with_key db
            (new_key crypto calendar replies key now identity input fingerprint public private))

make_key_answered :
    (crypto : Crypto) (calendar : Calendar) (replies : KeyReplies) (key now identity : ℕ)
    (input : NewKey) (output : Text) (db : Db) (u : Unit)
    → (make_key crypto calendar replies key now identity input output db).0 ≡ answered u
    → (f : Text) × (public : Text) × (private : Text) × IsStored crypto calendar replies key now
        identity input db
        (make_key crypto calendar replies key now identity input output db).1
        f
        public
        private
unfolding make_key
make_key_answered crypto calendar replies key now identity input output db u h =
    elim (Option-cases (extract_fingerprint output)) [
      | inl e ↦ ground (arith, rw (make_key, e) at h)
      | inr (f, e) ↦ elim (Bool-cases (is_empty f)) [
        | inl m ↦ ground (arith, rw (make_key, e, m) at h)
        | inr m ↦ elim (Option-cases (replies.public_key_of f)) [
          | inl p ↦ ground (arith, rw (make_key, e, m, p) at h)
          | inr (public, p) ↦ elim (Option-cases (replies.private_key_of f input.passphrase)) [
            | inl q ↦ ground (arith, rw (make_key, e, m, p, q) at h)
            | inr (private, q) ↦
                let row = new_key crypto calendar replies key now identity input f public private in
                let (no_key, stored) =
                  store_key_answered replies identity _ row db u (rw (make_key, e, m, p, q) at h) in
                (f, public, private, (q, no_key, rw (make_key, e, m, p, q) stored))
          ]
        ]
      ]
    ]

-- What a call of `createKey` that succeeds comes down to.
create_key_answered :
    (crypto : Crypto) (calendar : Calendar) (replies : KeyReplies) (key now identity : ℕ)
    (input : NewKey) (db : Db) (u : Unit)
    → (create_key crypto calendar replies key now identity input db).0 ≡ answered u
    → (output : Text) × (create_key crypto calendar replies key now identity input db
        ≡ make_key crypto calendar replies key now identity input output db)
unfolding create_key generate_key
create_key_answered crypto calendar replies key now identity input db u h =
    elim (Option-cases replies.listing) [
      | inl e ↦ ground (arith, h, e)
      | inr (output, e) ↦ (output, ground (arith, h, e))
    ]

latest_new :
    (identity : ℕ) (row : GnupgKey) (keys : List GnupgKey)
    → row.identity_id ≡ identity
    → is_active row.status ≡ true
    → find_first (active_key_of identity) keys ≡ none
    → latest_key identity (find_many (λ k. is_active k.status) (keys ++ (row ∷ []))) ≡ some row
unfolding latest_key
latest_new identity row [] own live h = ground (arith, own, live)
latest_new identity row (k ∷ keys) own live h =
    ground (arith, own, live, h, latest_new identity row keys own live)

latest_none :
    (identity : ℕ) (keys : List GnupgKey)
    → find_first (active_key_of identity) keys ≡ none
    → latest_key identity (find_many (λ k. is_active k.status) keys) ≡ none
unfolding latest_key
latest_none identity [] h = refl
latest_none identity (k ∷ keys) h = ground (arith, h, latest_none identity keys)

unlocked :
    (crypto : Crypto) (later identity : ℕ) (passphrase : Text) (db : Db) (k : GnupgKey)
    (private : Text)
    → latest_key identity (find_many (λ x. is_active x.status) db.keys) ≡ some k
    → is_past later k.expires_at ≡ false
    → crypto.decrypt
        (crypto.derive passphrase k.encryption_salt)
        k.encryption_iv
        k.encrypted_private_key
        k.encryption_auth_tag
      ≡ some private
    → get_decrypted_private_key_for_signing crypto later identity passphrase db
      ≡ answered (k.id, k.fingerprint, private)
unfolding get_decrypted_private_key_for_signing
unlocked crypto later identity passphrase db k private held valid opened =
    rw (get_decrypted_private_key_for_signing, held, valid, opened) refl

new_key_unlocked :
    (crypto : Crypto) (calendar : Calendar) (replies : KeyReplies) (key now identity : ℕ)
    (input : NewKey) (db : Db) (f public private : Text) (later : ℕ)
    → ((k iv text : Text)
        → crypto.decrypt k iv (crypto.encrypt k iv text).0 (crypto.encrypt k iv text).1 ≡ some text)
    → find_first (active_key_of identity) db.keys ≡ none
    → is_past later (stored_expiry (calculate_expires_at calendar now (period_of input))) ≡ false
    → get_decrypted_private_key_for_signing crypto later identity input.passphrase
        (with_key db (new_key crypto calendar replies key now identity input f public private))
      ≡ answered (key, f, private)
unfolding new_key
new_key_unlocked crypto calendar replies key now identity input db f public private later inverse
      no_key valid =
    let row = new_key crypto calendar replies key now identity input f public private in
    unlocked crypto later identity input.passphrase (with_key db row) row private
      (latest_new identity row db.keys refl refl no_key) valid
      (inverse (crypto.derive input.passphrase replies.salt) replies.iv private)

-- A key is made for an identity, and until it lapses the same passphrase unlocks it: the signer gets
-- the new key's id with the private key that GnuPG exported. Decryption has to invert encryption.
pub create_key_unlocks :
    (crypto : Crypto) (calendar : Calendar) (replies : KeyReplies) (key now identity : ℕ)
    (input : NewKey) (db : Db) (u : Unit) (later : ℕ)
    → ((k iv text : Text)
        → crypto.decrypt k iv (crypto.encrypt k iv text).0 (crypto.encrypt k iv text).1 ≡ some text)
    → (create_key crypto calendar replies key now identity input db).0 ≡ answered u
    → is_past later (stored_expiry (calculate_expires_at calendar now (period_of input))) ≡ false
    → (f : Text) × (private : Text) × (replies.private_key_of f input.passphrase ≡ some private)
      × (get_decrypted_private_key_for_signing crypto later identity input.passphrase
            (create_key crypto calendar replies key now identity input db).1
          ≡ answered (key, f, private))
unfolding get_decrypted_private_key_for_signing
create_key_unlocks crypto calendar replies key now identity input db u later inverse h valid =
    let (output, made) =
      create_key_answered crypto calendar replies key now identity input db u h in
    let (f, public, private, (exported, no_key, stored)) =
      make_key_answered crypto calendar replies key now identity input output db u (rw made at h) in
    (
      f,
      private,
      exported,
      rw (made, stored)
          (new_key_unlocked crypto calendar replies key now identity input db f public private later
            inverse no_key valid),
    )

-- The key that an identity holds, once it has expired, unlocks no more and cannot be replaced: no
-- call of `createKey` for that identity succeeds, with whatever input and answers.
pub create_key_expired :
    (crypto : Crypto) (calendar : Calendar) (replies : KeyReplies) (key now identity later : ℕ)
    (input : NewKey) (passphrase : Text) (db : Db) (k : GnupgKey) (t : ℕ)
    → latest_key identity (find_many (λ x. is_active x.status) db.keys) ≡ some k
    → k.expires_at ≡ some t
    → t < later
    → (get_decrypted_private_key_for_signing crypto later identity passphrase db ≡ rejected 400)
      × (¬ (
          (u : Unit) × ((create_key crypto calendar replies key now identity input db).0
            ≡ answered u)))
unfolding get_decrypted_private_key_for_signing
create_key_expired crypto calendar replies key now identity later input passphrase db k t held
      expiry gone =
    (
      rw (get_decrypted_private_key_for_signing, held, expiry) (ground (arith, gone)),
      λ (u, h).
          let (output, made) =
            create_key_answered crypto calendar replies key now identity input db u h in
          let (f, public, private, (exported, no_key, stored)) =
            make_key_answered crypto calendar replies key now identity input output db u
              (rw made at h) in
          ground (arith, held, latest_none identity db.keys no_key),
    )
