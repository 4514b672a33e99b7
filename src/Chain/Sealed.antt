-- ===== src/Chain/Sealed.antt =====
-- Chains of sealed events, as a relation, and how `append`, `from_stored` and `replay_event_log` stand
-- to it.
use mathlib.Core.Path.{subst}
use padrino.Base.{
  ℕ, suc, ◌+◌, ◌≡◌, refl, sym, ap, ◌∙◌, List, [], ◌∷◌, ◌++◌, String, length, string_eq, ok,
  first_step, ok-injective, arith,
}
use padrino.Json.{Fields}
use padrino.Chain.{
  StoredEvent, genesis_hash, last_hash, head_hash, compute_event_hash, seal, append, check_stored,
  from_stored_at, from_stored,
}

module _ (sha256_hex : String → String) where
  -- Consecutive numbers from `n`, pointers to the hash before from `previous` on, and hashes of the
  -- bodies.
  pub data IsSealedFrom : ℕ → String → List StoredEvent → Type 0 where
    sealed_none : {n : ℕ} {previous : String} → IsSealedFrom n previous []
    sealed_next :
        {n : ℕ} {previous : String} {stored : StoredEvent} {rest : List StoredEvent}
        → stored.sequence ≡ n
        → stored.prev_event_hash ≡ previous
        → compute_event_hash sha256_hex previous stored.body ≡ ok stored.event_hash
        → IsSealedFrom (suc n) stored.event_hash rest
        → IsSealedFrom n previous (stored ∷ rest)

  abbrev pub IsSealed : List StoredEvent → Type 0
  IsSealed events = IsSealedFrom 0 genesis_hash events

  pub IsSealedFrom-append :
      (n : ℕ) (previous : String) (es : List StoredEvent) (e : StoredEvent)
      → IsSealedFrom n previous es
      → e.sequence ≡ n + length es
      → e.prev_event_hash ≡ last_hash previous es
      → compute_event_hash sha256_hex (last_hash previous es) e.body ≡ ok e.event_hash
      → IsSealedFrom n previous (es ++ e ∷ [])
  unfolding last_hash
  IsSealedFrom-append n previous [] e sealed_none number pointer hashed =
      sealed_next (omega arith) pointer hashed sealed_none
  IsSealedFrom-append n previous (f ∷ es) e (sealed_next a b c s) number pointer hashed =
      sealed_next a b c
        (IsSealedFrom-append (suc n) f.event_hash es e s (omega arith) pointer hashed)

  -- The event that `append` seals continues the chain.
  pub seal-next :
      (es : List StoredEvent) (body : Fields) (e : StoredEvent)
      → seal sha256_hex es body ≡ ok e
      → (e.sequence ≡ length es)
        × (e.prev_event_hash ≡ head_hash es)
        × (compute_event_hash sha256_hex (head_hash es) body ≡ ok e.event_hash)
        × (e.body ≡ body)
  unfolding seal
  seal-next es body e h =
      let (hash, computed, sealed) =
        first_step _ (compute_event_hash sha256_hex (head_hash es) body) e h in
      let p = ok-injective sealed in
      (
        ap (λ s. s.sequence) (sym p),
        ap (λ s. s.prev_event_hash) (sym p),
        computed ∙ ap (λ s. ok s.event_hash) p,
        ap (λ s. s.body) (sym p),
      )

  pub check_stored-IsSealed :
      (n : ℕ) (previous : String) (e : StoredEvent)
      → check_stored sha256_hex n previous e ≡ ok tt
      → (e.sequence ≡ n)
        × (e.prev_event_hash ≡ previous)
        × (compute_event_hash sha256_hex previous e.body ≡ ok e.event_hash)
  unfolding check_stored
  check_stored-IsSealed n previous e h = ground arith

  pub from_stored_at-IsSealed :
      (n : ℕ) (previous : String) (es log : List StoredEvent)
      → from_stored_at sha256_hex n previous es ≡ ok log
      → IsSealedFrom n previous es × (log ≡ es)
  unfolding from_stored_at
  from_stored_at-IsSealed n previous [] log h = (sealed_none, sym (ok-injective h))
  from_stored_at-IsSealed n previous (e ∷ es) log h =
      let (_, checked, h') = first_step _ (check_stored sha256_hex n previous e) log h in
      let (rest, followed, h'') =
        first_step _ (from_stored_at sha256_hex (suc n) e.event_hash es) log h' in
      let (number, pointer, hashed) = check_stored-IsSealed n previous e checked in
      let (sealed, copied) = from_stored_at-IsSealed (suc n) e.event_hash es rest followed in
      (sealed_next number pointer hashed sealed, sym (ok-injective h'') ∙ ap (λ t. e ∷ t) copied)

  IsSealed-check_stored :
      (n : ℕ) (previous : String) (e : StoredEvent)
      → e.sequence ≡ n
      → e.prev_event_hash ≡ previous
      → compute_event_hash sha256_hex previous e.body ≡ ok e.event_hash
      → check_stored sha256_hex n previous e ≡ ok tt
  unfolding check_stored
  IsSealed-check_stored n previous e number pointer hashed = rw hashed (ground arith)

  pub IsSealed-from_stored_at :
      (n : ℕ) (previous : String) (es : List StoredEvent)
      → IsSealedFrom n previous es
      → from_stored_at sha256_hex n previous es ≡ ok es
  unfolding from_stored_at
  IsSealed-from_stored_at n previous [] sealed_none = refl
  IsSealed-from_stored_at n previous (e ∷ es) (sealed_next number pointer hashed sealed) =
      rw (IsSealed-check_stored n previous e number pointer hashed)
        (rw (IsSealed-from_stored_at (suc n) e.event_hash es sealed) refl)

  -- A log that `from_stored` accepts is sealed, and comes back as it was stored.
  pub from_stored-IsSealed :
      (es log : List StoredEvent) → from_stored sha256_hex es ≡ ok log → IsSealed es × (log ≡ es)
  unfolding from_stored
  from_stored-IsSealed es log h = from_stored_at-IsSealed 0 genesis_hash es log h

  -- A sealed log is accepted by `from_stored`.
  pub IsSealed-from_stored :
      (es : List StoredEvent) → IsSealed es → from_stored sha256_hex es ≡ ok es
  unfolding from_stored
  IsSealed-from_stored es s = IsSealed-from_stored_at 0 genesis_hash es s

  -- `append` keeps a log sealed.
  pub append-IsSealed :
      (es log : List StoredEvent) (body : Fields)
      → IsSealed es
      → append sha256_hex es body ≡ ok log
      → IsSealed log
  unfolding append head_hash
  append-IsSealed es log body s h =
      let (e, sealed, h') = first_step _ (seal sha256_hex es body) log h in
      let (number, pointer, hashed, same) = seal-next es body e sealed in
      subst IsSealed (ok-injective h') (
        IsSealedFrom-append 0 genesis_hash es e s (omega (arith, number)) pointer
          (ap (λ b. compute_event_hash sha256_hex (head_hash es) b) same ∙ hashed))
