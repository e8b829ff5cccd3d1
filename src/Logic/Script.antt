-- ===== src/Logic/Script.antt =====
-- logic/state_logic.go: what `expireStateScript` leaves of a hash.
use mathlib.Core.Path.{ap}
use longcom.Base.{
  ==-refl, ℕ, ◌+◌, ◌≡◌, refl, ◌∙◌, Bool, true, false, ◌||◌, [], ◌∷◌, Option, none, some, Text,
  arith, ltb, length, Bool-cases, inl, inr, if◌then◌else◌, ◌==◌, text_eq, nat_eq,
}
use longcom.Base.Dict.{Dict, load, store, delete, load-store, load-delete}
use longcom.Base.Decimal.{format_int}
use longcom.Logic.Redis.{
  Hash, expiry, live, live_until, Redis, IsRedis, cache_expire_state, expire_state_script,
}

pub store_here : (k v w : Text) (m : Dict Text Text) → store k v ((k, w) ∷ m) ≡ (k, v) ∷ m
unfolding store
store_here k v w m = rw (==-refl k) refl

pub gone_or_kept :
    (k j f v : Text) (m : Dict Text Text)
    → load f (delete j (delete k (store j v m))) ≡ (if (k == f) || (j == f) then none else load f m)
gone_or_kept k j f v m = ground (
  arith,
  load-delete j f (delete k (store j v m)),
  load-delete k f (store j v m),
  load-store j f v m,
)

pub live_open : (now : ℕ) (h : Hash) → live_until h.expires now ≡ true → live now h ≡ h
unfolding live
live_open now h e = ground (arith, e)

expiry-twice :
    (f : Text) (m : Dict Text Text) (at : Option ℕ)
    → expiry (delete f m) (expiry m at) ≡ expiry (delete f m) at
unfolding delete expiry
expiry-twice f [] at = refl
expiry-twice f (field ∷ fields) at = refl

expiry-either :
    (b : Bool) (x y : Text × Text) (m n : Dict Text Text) (at : Option ℕ)
    → expiry (if b then x ∷ m else y ∷ n) at ≡ at
unfolding expiry
expiry-either true x y m n at = refl
expiry-either false x y m n at = refl

expiry-store : (k v : Text) (m : Dict Text Text) (at : Option ℕ) → expiry (store k v m) at ≡ at
unfolding store expiry
expiry-store k v [] at = refl
expiry-store k v ((j, w) ∷ m) at = expiry-either (j == k) (k, v) (j, w) m (store k v m) at

live_until-expiry :
    (now : ℕ) (m : Dict Text Text) (at : Option ℕ)
    → live_until at now ≡ true
    → live_until (expiry m at) now ≡ true
unfolding expiry
live_until-expiry now [] at e = refl
live_until-expiry now (field ∷ fields) at e = e

module _ {R : Type 0} (c : Redis R) (laws : IsRedis c) (now : ℕ) (key : Text) where
  hlen_open :
      (h : Hash) (r : R)
      → c.shows key r ≡ h
      → live_until h.expires now ≡ true
      → c.hlen now key r ≡ length h.fields
  hlen_open h r e open_yet = laws.hlen_lem now key r ∙ (rw (e, live_open now h open_yet) refl)

  hdel_open :
      (field : Text) (h : Hash) (r : R)
      → c.shows key r ≡ h
      → live_until h.expires now ≡ true
      → c.shows key (c.hdel now key field r) ≡ record {
        fields = delete field h.fields;
        expires = expiry (delete field h.fields) h.expires;
      }
  hdel_open field h r e open_yet =
      laws.shows-hdel now key field r ∙ (rw (e, live_open now h open_yet) refl)

  expire_open :
      (seconds : ℕ) (h : Hash) (r : R)
      → c.shows key r ≡ h
      → live_until h.expires now ≡ true
      → c.shows key (c.expire now key seconds r)
        ≡ record { fields = h.fields; expires = expiry h.fields (some (now + seconds)) }
  expire_open seconds h r e open_yet =
      laws.shows-expire now key seconds r ∙ (rw (e, live_open now h open_yet) refl)

  -- What the script leaves of a hash that has not expired.
  abbrev pub scripted : (field1 field2 : Text) → Hash → Hash
  scripted field1 field2 h =
      let set = store field2 (format_int now) h.fields in
      if ltb 2 (length set)
      then (let left = delete field2 (delete field1 set) in
          record { fields = left; expires = expiry left h.expires })
      else record { fields = set; expires = some (now + cache_expire_state) }

  pub shows-script :
      (field1 field2 : Text) (h : Hash) (r : R)
      → live now (c.shows key r) ≡ h
      → live_until h.expires now ≡ true
      → c.shows key (expire_state_script c now key field1 field2 r) ≡ scripted field1 field2 h
  unfolding expire_state_script
  shows-script field1 field2 h r e open_yet =
      let set = store field2 (format_int now) h.fields in
      let s = c.hset now key field2 (format_int now) r in
      let shown : Hash = record { fields = set; expires = h.expires } in
      let is : c.shows key s ≡ shown =
        laws.shows-hset now key field2 (format_int now) r ∙ (rw e refl) in
      let size = hlen_open shown s is open_yet in
      elim (Bool-cases (ltb 2 (length set))) [
        | inl more ↦
            rw (size, more)
              (hdel_open field2 _ (c.hdel now key field1 s) (hdel_open field1 shown s is open_yet)
                  (live_until-expiry now (delete field1 set) h.expires open_yet)
                ∙ ap (λ at. record { fields = delete field2 (delete field1 set); expires = at })
                    (expiry-twice field2 (delete field1 set) h.expires))
        | inr few ↦
            rw (size, few)
              (expire_open cache_expire_state shown s is open_yet
                ∙ ap (λ at. record { fields = set; expires = at })
                    (expiry-store field2 (format_int now) h.fields _))
      ]
