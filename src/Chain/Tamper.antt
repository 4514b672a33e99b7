-- ===== src/Chain/Tamper.antt =====
-- What the head hash of a sealed log binds.
use Prim.Native.String.{count}
use text.Mathlib.TextLemmas.{append_inj}
use padrino.Base.{
  ℕ, suc, ◌≡◌, ◌≢◌, refl, sym, ap, ◌∙◌, ◌⊎◌, inl, inr, List, [], ◌∷◌, map, String, append_text,
  length, String-discrete, Result, ok, err, ◌>>=◌, ok-injective, arith,
}
use padrino.Json.{dict_value}
use padrino.Json.Canonical.{TypeError, canonical_dumps}
use padrino.Chain.{
  StoredEvent, ChainError, genesis_hash, last_hash, head_hash, filtered, raise_type_error,
  compute_event_hash,
}
use padrino.Chain.Sealed.{IsSealed, IsSealedFrom, sealed_next}

-- The canonical text of what an event's hash covers.
abbrev pub content : StoredEvent → Result TypeError String
content e = canonical_dumps (dict_value (filtered e.body))

module _ (sha256_hex : String → String) where
  -- The text that the event's hash should be the digest of: the hash before it, and its content.
  abbrev pub IsPayload : StoredEvent → String → Type 0
  IsPayload e s = (t : String) × (content e ≡ ok t) × (s ≡ append_text e.prev_event_hash t)

  -- The two events have different texts to hash, and one digest for both.
  abbrev pub Collide : StoredEvent → StoredEvent → Type 0
  Collide e f =
      (s : String) × (t : String) × IsPayload e s
      × IsPayload f t
      × (s ≢ t)
      × (sha256_hex s ≡ sha256_hex t)

  -- At one place of the two logs the events collide.
  abbrev pub Collision : List StoredEvent → List StoredEvent → Type 0
  Collision (e ∷ es) (f ∷ fs) = Collide e f ⊎ Collision es fs
  Collision _ _ = ⊥

  raise_type_error-ok :
      (r : Result TypeError String) (f : String → Result ChainError String) (x : String)
      → (raise_type_error r >>= f) ≡ ok x
      → (t : String) × (r ≡ ok t) × (f t ≡ ok x)
  unfolding raise_type_error
  raise_type_error-ok (ok t) f x h = (t, refl, h)
  raise_type_error-ok (err e) f x h = cc

  -- The text whose digest an event's hash is.
  hashed_text :
      (previous : String) (e : StoredEvent)
      → compute_event_hash sha256_hex previous e.body ≡ ok e.event_hash
      → (t : String) × (content e ≡ ok t) × (sha256_hex (append_text previous t) ≡ e.event_hash)
  unfolding compute_event_hash
  hashed_text previous e h =
      let (t, dumped, hashed) = raise_type_error-ok (content e) _ e.event_hash h in
      (t, dumped, ok-injective hashed)

  module _ (digest_length : (s : String) → count (sha256_hex s) ≡ 64) where
    -- One step back along two chains.
    one_event_back :
        (p q : String) (e f : StoredEvent)
        → count p ≡ 64
        → count q ≡ 64
        → compute_event_hash sha256_hex p e.body ≡ ok e.event_hash
        → compute_event_hash sha256_hex q f.body ≡ ok f.event_hash
        → e.event_hash ≡ f.event_hash
        → e.prev_event_hash ≡ p
        → f.prev_event_hash ≡ q
        → ((p ≡ q) × (content e ≡ content f)) ⊎ Collide e f
    one_event_back p q e f lp lq he hf same pe qf =
        let (t, dt, st) = hashed_text p e he in
        let (u, du, su) = hashed_text q f hf in
        elim (String-discrete (append_text p t) (append_text q u)) [
          | yes r ↦
              let (prefix, rest) = append_inj r (lp ∙ sym lq) in
              inl (prefix, dt ∙ ap ok rest ∙ sym du)
          | no n ↦ inr (
            append_text p t,
            append_text q u,
            (t, dt, ap (λ h. append_text h t) (sym pe)),
            (u, du, ap (λ h. append_text h u) (sym qf)),
            n,
            st ∙ same ∙ sym su,
          )
        ]

    event_hash-count :
        (p : String) (e : StoredEvent)
        → compute_event_hash sha256_hex p e.body ≡ ok e.event_hash
        → count e.event_hash ≡ 64
    event_hash-count p e h =
        let (t, dt, st) = hashed_text p e h in ap count (sym st) ∙ digest_length (append_text p t)

    contents_from :
        (n : ℕ) (p q : String) (es fs : List StoredEvent)
        → count p ≡ 64
        → count q ≡ 64
        → IsSealedFrom sha256_hex n p es
        → IsSealedFrom sha256_hex n q fs
        → length es ≡ length fs
        → last_hash p es ≡ last_hash q fs
        → ((p ≡ q) × (map content es ≡ map content fs)) ⊎ Collision es fs
    unfolding last_hash
    contents_from n p q [] [] lp lq s t l h = inl (h, refl)
    contents_from n p q [] (f ∷ fs) lp lq s t l h = cc
    contents_from n p q (e ∷ es) [] lp lq s t l h = cc
    contents_from n p q (e ∷ es) (f ∷ fs) lp lq (sealed_next a b c s) (sealed_next a' b' c' t) l h =
        elim (contents_from (suc n) e.event_hash f.event_hash es fs (event_hash-count p e c)
          (event_hash-count q f c') s t (omega arith) h) [
            | inr collision ↦ inr (inr collision)
            | inl (same, rest) ↦ elim (one_event_back p q e f lp lq c c' same b b') [
              | inr collision ↦ inr (inl collision)
              | inl (prefix, first) ↦ inl (prefix, cc (first, rest))
            ]
          ]

    -- Two sealed logs of one length and one head hash agree on the canonical text of every body, less
    -- the excluded keys; or at one place of the two logs the events have different texts to hash, each
    -- the hash before it followed by its content, with the same digest. A digest has 64 digits.
    pub head_hash-content :
        (es fs : List StoredEvent)
        → IsSealed sha256_hex es
        → IsSealed sha256_hex fs
        → length es ≡ length fs
        → head_hash es ≡ head_hash fs
        → (map content es ≡ map content fs) ⊎ Collision es fs
    unfolding head_hash
    head_hash-content es fs s t l h =
        elim (contents_from 0 genesis_hash genesis_hash es fs refl refl s t l h) [
          | inl (_, same) ↦ inl same
          | inr collision ↦ inr collision
        ]
