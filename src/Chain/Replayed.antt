-- ===== src/Chain/Replayed.antt =====
-- `replay_event_log` and `append` against `from_stored`.
use mathlib.Core.Path.{subst}
use padrino.Base.{
  ℕ, suc, ◌≡◌, refl, sym, ap, ◌∙◌, inl, inr, true, List, [], ◌∷◌, ◌++◌, map, String, length, ◌==◌,
  string_eq, Bool-cases, ok, ◌>>=◌, first_step, ok-injective, arith,
}
use padrino.Json.{Fields}
use padrino.Chain.{
  StoredEvent, genesis_hash, last_hash, head_hash, compute_event_hash, seal, append, from_stored,
  replay_stored, replay_event_log_on, replay_event_log,
}
use padrino.Chain.Sealed.{
  IsSealed, IsSealedFrom, sealed_none, sealed_next, seal-next, from_stored-IsSealed,
  IsSealed-from_stored, append-IsSealed,
}

last_hash-snoc :
    (h : String) (es : List StoredEvent) (e : StoredEvent)
    → last_hash h (es ++ e ∷ []) ≡ e.event_hash
unfolding last_hash
last_hash-snoc h [] e = refl
last_hash-snoc h (f ∷ es) e = last_hash-snoc f.event_hash es e

length-snoc : (es : List StoredEvent) (e : StoredEvent) → length (es ++ e ∷ []) ≡ suc (length es)
length-snoc [] e = refl
length-snoc (f ∷ es) e = ap suc (length-snoc es e)

append_assoc {ℓ} :
    {A : Type ℓ} (es : List A) (e : A) (fs : List A) → (es ++ e ∷ []) ++ fs ≡ es ++ (e ∷ fs)
append_assoc [] e fs = refl
append_assoc (f ∷ es) e fs = ap (λ t. f ∷ t) (append_assoc es e fs)

append_nil {ℓ} : {A : Type ℓ} (es : List A) → es ++ [] ≡ es
append_nil [] = refl
append_nil (f ∷ es) = ap (λ t. f ∷ t) (append_nil es)

-- What a replay takes over from an event.
abbrev pub kept : StoredEvent → String × Fields
kept e = (e.event_hash, e.body)

map-snoc :
    (es : List StoredEvent) (e : StoredEvent) → map kept (es ++ e ∷ []) ≡ map kept es ++ kept e ∷ []
map-snoc [] e = refl
map-snoc (f ∷ es) e = ap (λ t. kept f ∷ t) (map-snoc es e)

path_of : (s t : String) → s == t ≡ true → s ≡ t
path_of s t h = ground arith

-- An event under another sequence number.
abbrev pub renumber : (StoredEvent → ℕ) → StoredEvent → StoredEvent
renumber f e = record e { sequence = f e }

module _ (sha256_hex : String → String) where
  -- An event that continues the log is what `replay_stored` adds.
  replay_stored-next :
      (log : List StoredEvent) (e : StoredEvent)
      → e.sequence ≡ length log
      → e.prev_event_hash ≡ head_hash log
      → compute_event_hash sha256_hex (head_hash log) e.body ≡ ok e.event_hash
      → replay_stored sha256_hex log e ≡ ok (log ++ e ∷ [])
  unfolding replay_stored seal
  replay_stored-next log e number pointer hashed = rw hashed (ground (arith, number, pointer))

  IsSealedFrom-replay_event_log_on :
      (log es : List StoredEvent)
      → IsSealedFrom sha256_hex (length log) (head_hash log) es
      → replay_event_log_on sha256_hex log es ≡ ok (log ++ es)
  unfolding replay_event_log_on head_hash
  IsSealedFrom-replay_event_log_on log [] sealed_none = ap ok (sym (append_nil log))
  IsSealedFrom-replay_event_log_on log (e ∷ es) (sealed_next number pointer hashed sealed) =
      rw (replay_stored-next log e number pointer hashed) (
        IsSealedFrom-replay_event_log_on (log ++ e ∷ []) es (
          subst (λ n. IsSealedFrom sha256_hex n (head_hash (log ++ e ∷ [])) es)
            (sym (length-snoc log e))
            (subst (λ h. IsSealedFrom sha256_hex (suc (length log)) h es)
              (sym (last_hash-snoc genesis_hash log e)) sealed))
        ∙ ap ok (append_assoc log e es))

  -- A log that `from_stored` accepts is what `replay_event_log` builds again from its bodies, event for
  -- event.
  pub replay_event_log-from_stored :
      (es log : List StoredEvent)
      → from_stored sha256_hex es ≡ ok log
      → replay_event_log sha256_hex es ≡ ok es
  unfolding replay_event_log
  replay_event_log-from_stored es log h =
      IsSealedFrom-replay_event_log_on [] es ((from_stored-IsSealed sha256_hex es log h).0)

  -- A log that `from_stored` accepts is one that it accepts after each `append` too.
  pub from_stored-append :
      (es log log' : List StoredEvent) (body : Fields)
      → from_stored sha256_hex es ≡ ok log
      → append sha256_hex log body ≡ ok log'
      → from_stored sha256_hex log' ≡ ok log'
  from_stored-append es log log' body h k =
      let (sealed, same) = from_stored-IsSealed sha256_hex es log h in
      IsSealed-from_stored sha256_hex log'
        (append-IsSealed sha256_hex log log' body (subst (IsSealed sha256_hex) (sym same) sealed) k)

  -- What `replay_stored` adds continues the chain, with the hash and the body of the event replayed.
  replay_stored-IsSealed :
      (log : List StoredEvent) (e : StoredEvent) (log' : List StoredEvent)
      → IsSealed sha256_hex log
      → replay_stored sha256_hex log e ≡ ok log'
      → IsSealed sha256_hex log' × (map kept log' ≡ map kept log ++ kept e ∷ [])
  unfolding replay_stored append
  replay_stored-IsSealed log e log' s h =
      let (r, sealed, h') = first_step _ (seal sha256_hex log e.body) log' h in
      let (number, pointer, hashed, same) = seal-next sha256_hex log e.body r sealed in
      elim (Bool-cases (r.event_hash == e.event_hash)) [
        | inr differs ↦ cc
        | inl agrees ↦
            let added : log ++ r ∷ [] ≡ log' = ground (arith, agrees, h') in
            (
              append-IsSealed sha256_hex log log' e.body s
                  (ap (λ m. m >>= λ stored. ok (log ++ stored ∷ [])) sealed ∙ ap ok added),
              ap (map kept) (sym added)
                  ∙ map-snoc log r
                  ∙ ap (λ k. map kept log ++ k ∷ [])
                      (λ i. (path_of r.event_hash e.event_hash agrees i, same i)),
            )
      ]

  -- What the loop of `replay_event_log` keeps.
  replay_event_log_on-IsSealed :
      (log es result : List StoredEvent)
      → IsSealed sha256_hex log
      → replay_event_log_on sha256_hex log es ≡ ok result
      → IsSealed sha256_hex result × (map kept result ≡ map kept log ++ map kept es)
  unfolding replay_event_log_on
  replay_event_log_on-IsSealed log [] result s h = (
    subst (IsSealed sha256_hex) (ok-injective h) s,
    ap (map kept) (sym (ok-injective h)) ∙ sym (append_nil (map kept log)),
  )
  replay_event_log_on-IsSealed log (e ∷ es) result s h =
      let (log', stepped, h') = first_step _ (replay_stored sha256_hex log e) result h in
      let (sealed, added) = replay_stored-IsSealed log e log' s stepped in
      let (done, all) = replay_event_log_on-IsSealed log' es result sealed h' in
      (
        done,
        all ∙ ap (λ k. k ++ map kept es) added ∙ append_assoc (map kept log) (kept e) (map kept es),
      )

  -- A log that `replay_event_log` returns is accepted by `from_stored`, and has the hashes and the
  -- bodies of the events replayed.
  pub from_stored-replay_event_log :
      (es log : List StoredEvent)
      → replay_event_log sha256_hex es ≡ ok log
      → (from_stored sha256_hex log ≡ ok log) × (map kept log ≡ map kept es)
  unfolding replay_event_log
  from_stored-replay_event_log es log h =
      let (sealed, all) = replay_event_log_on-IsSealed [] es log sealed_none h in
      (IsSealed-from_stored sha256_hex log sealed, all)

  replay_stored-renumbered :
      (f : StoredEvent → ℕ) (log : List StoredEvent) (e : StoredEvent) (log' : List StoredEvent)
      → replay_stored sha256_hex log e ≡ ok log'
      → replay_stored sha256_hex log (renumber f e) ≡ ok log'
  unfolding replay_stored
  replay_stored-renumbered f log e log' h =
      let (r, sealed, h') = first_step _ (seal sha256_hex log e.body) log' h in
      rw sealed (elim (Bool-cases (r.event_hash == e.event_hash)) [
        | inr differs ↦ cc
        | inl agrees ↦ ground (arith, agrees, h')
      ])

  replay_event_log_on-renumbered :
      (f : StoredEvent → ℕ) (log es result : List StoredEvent)
      → replay_event_log_on sha256_hex log es ≡ ok result
      → replay_event_log_on sha256_hex log (map (renumber f) es) ≡ ok result
  unfolding replay_event_log_on replay_stored
  replay_event_log_on-renumbered f log [] result h = h
  replay_event_log_on-renumbered f log (e ∷ es) result h =
      let (log', stepped, h') = first_step _ (replay_stored sha256_hex log e) result h in
      rw (replay_stored-renumbered f log e log' stepped)
        (replay_event_log_on-renumbered f log' es result h')

  -- `replay_event_log` does not look at the sequence numbers of the events: with any others in their
  -- place it returns the same log.
  pub replay_event_log-renumbered :
      (f : StoredEvent → ℕ) (es log : List StoredEvent)
      → replay_event_log sha256_hex es ≡ ok log
      → replay_event_log sha256_hex (map (renumber f) es) ≡ ok log
  unfolding replay_event_log
  replay_event_log-renumbered f es log h = replay_event_log_on-renumbered f [] es log h
