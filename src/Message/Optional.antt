-- ===== src/Message/Optional.antt =====
-- The fields of a message that may be missing.
use eternal_blue.Prelude.{
  Bytes, codes, c_text, Bool, true, false, Option, none, some, [], ◌≡◌, inl, inr, refl, Bool-cases,
  arith, if◌then◌else◌, subst,
}
use eternal_blue.Prelude.Int.{ℤ, pos}
use eternal_blue.Prelude.Exec.{ok}
use eternal_blue.Prelude.Exec.Pure.{bind-eq-ok}
use eternal_blue.Sodium.{Sodium}
use eternal_blue.Json.{JsonLib}
use eternal_blue.Message.Wire.{
  Calendar, milliseconds, iso8601_to_ms, present, original_of, parsed_iso, sent_at, sent_at_of,
}

pub ok_inj : {A : Type 0} (a b : A) → ok a ≡ ok b → a ≡ b
ok_inj a b h = cc

module _ ⦃json : JsonLib⦄ where
  -- The object has a value under the key that is not null.
  pub record IsGiven (j : json.Json) (key : Bytes) (v : json.Json) : Type 0 where
    pub contains : json.contains j key ≡ true
    pub at : json.at j key ≡ ok v
    pub is_value : json.is_null v ≡ false

  -- It has none, or null.
  pub data IsMissing (j : json.Json) (key : Bytes) : Type 0 where
    no_key : json.contains j key ≡ false → IsMissing j key
    null_there : (v : json.Json) → json.at j key ≡ ok v → json.is_null v ≡ true → IsMissing j key

  -- The original's id, or nothing.
  pub data Original (j : json.Json) : Bytes → Type 0 where
    forwarded :
        (v : json.Json) (id : Bytes)
        → IsGiven j (codes "original_message_id") v
        → json.get_string v ≡ ok id
        → Original j id
    not_forwarded : IsMissing j (codes "original_message_id") → Original j []

  -- The time in milliseconds: that field, or else the timestamp, or else 0.
  pub data Sent ⦃calendar : Calendar⦄ (j : json.Json) : ℤ → Type 0 where
    in_milliseconds :
        (v : json.Json) (t : ℤ)
        → IsGiven j (codes "sent_at_ms") v
        → json.get_long v ≡ ok t
        → Sent j t
    in_iso :
        (v : json.Json) (s : Bytes) (t : ℤ)
        → IsMissing j (codes "sent_at_ms")
        → IsGiven j (codes "sent_at") v
        → json.get_string v ≡ ok s
        → calendar.seconds (c_text s) ≡ some t
        → Sent j (milliseconds t)
    no_time : IsMissing j (codes "sent_at_ms") → IsMissing j (codes "sent_at") → Sent j (pos 0)

  -- What a value under a key is for the readers of optional fields.
  abbrev Found : json.Json → Bytes → Option json.Json → Type 0
  Found j key none = IsMissing j key
  Found j key (some v) = IsGiven j key v

  null_or_value :
      (j : json.Json) (key : Bytes) (v : json.Json) (o : Option json.Json) (is_null : Bool)
      → json.contains j key ≡ true
      → json.at j key ≡ ok v
      → json.is_null v ≡ is_null
      → ok (if is_null then none else some v) ≡ ok o
      → Found j key o
  null_or_value j key v o true there at e h =
      let same : none ≡ o = cc in subst (Found j key) same (null_there v at e)
  null_or_value j key v o false there at e h =
      let same : some v ≡ o = cc in
      subst (Found j key) same (record { contains = there; at = at; is_value = e })

module _ ⦃sodium : Sodium⦄ ⦃json : JsonLib⦄ where
  present-Found :
      (j : json.Json) (key : Bytes) (o : Option json.Json) → present j key ≡ ok o → Found j key o
  unfolding present
  present-Found j key o h = elim (Bool-cases (json.contains j key)) [
    | inl there ↦
        let (v, at, h1) = bind-eq-ok (json.at j key) _ o (rw there at h) in
        null_or_value j key v o (json.is_null v) there at refl h1
    | inr lacks ↦ let e : none ≡ o = ground arith in subst (Found j key) e (no_key lacks)
  ]

  value-Original :
      (j : json.Json) (id : Bytes) (o : Option json.Json)
      → Found j (codes "original_message_id") o
      → elim o [ none ↦ ok [] | some v ↦ json.get_string v ] ≡ ok id
      → Original j id
  value-Original j id none f h = let e : [] ≡ id = cc in subst (Original j) e (not_forwarded f)
  value-Original j id (some v) f h = forwarded v id f h

  pub original_of-Original : (j : json.Json) (id : Bytes) → original_of j ≡ ok id → Original j id
  unfolding original_of
  original_of-Original j id h =
      let (o, at, h1) = bind-eq-ok (present j (codes "original_message_id")) _ id h in
      value-Original j id o (present-Found j (codes "original_message_id") o at) h1

  module _ ⦃calendar : Calendar⦄ where
    iso-seconds :
        (s : Bytes) (r : Option ℤ) (t : ℤ)
        → calendar.seconds (c_text s) ≡ r
        → iso8601_to_ms s ≡ ok t
        → (u : ℤ) × (calendar.seconds (c_text s) ≡ some u) × (milliseconds u ≡ t)
    unfolding iso8601_to_ms
    iso-seconds s none t e h = let bad = rw (iso8601_to_ms, e) at h in cc bad
    iso-seconds s (some u) t e h = let good = rw (iso8601_to_ms, e) at h in (u, e, cc good)

    parsed_iso-Sent :
        (j : json.Json) (t : ℤ) (o : Option json.Json)
        → IsMissing j (codes "sent_at_ms")
        → Found j (codes "sent_at") o
        → parsed_iso o ≡ ok t
        → Sent j t
    parsed_iso-Sent j t none no_ms f h =
        let e : pos 0 ≡ t = cc in subst (Sent j) e (no_time no_ms f)
    parsed_iso-Sent j t (some v) no_ms f h =
        let (s, at, h1) = bind-eq-ok (json.get_string v) _ t h in
        let (u, seconds, e) = iso-seconds s (calendar.seconds (c_text s)) t refl h1 in
        subst (Sent j) e (in_iso v s u no_ms f at seconds)

    sent_at-Sent :
        (j : json.Json) (t : ℤ) (o : Option json.Json)
        → Found j (codes "sent_at_ms") o
        → sent_at j o ≡ ok t
        → Sent j t
    sent_at-Sent j t (some v) f h = in_milliseconds v t f h
    sent_at-Sent j t none f h =
        let (o, at, h1) = bind-eq-ok (present j (codes "sent_at")) _ t h in
        parsed_iso-Sent j t o f (present-Found j (codes "sent_at") o at) h1

    pub sent_at_of-Sent : (j : json.Json) (t : ℤ) → sent_at_of j ≡ ok t → Sent j t
    unfolding sent_at_of
    sent_at_of-Sent j t h =
        let (o, at, h1) = bind-eq-ok (present j (codes "sent_at_ms")) _ t h in
        sent_at-Sent j t o (present-Found j (codes "sent_at_ms") o at) h1
    -- The message is what the text says: an object with all the required fields, whose values it has,
    -- the two blobs decoded, with the optional fields as above, and not opened yet.
