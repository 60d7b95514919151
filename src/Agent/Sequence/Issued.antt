-- ===== src/Agent/Sequence/Issued.antt =====
-- No report number is ever issued twice, across failed writes, crashes and restarts.
use hope.Base.{ℕ, ◌≤◌, ◌<◌, ◌≡◌, refl, ◌⊎◌, inl, inr, String, List, [], ◌∷◌, arith, str_eq_iff}
use hope.Protocol.Types.{AgentReport}
use hope.Agent.Sequence.{
  Sequence, CounterFile, missing, unreadable, corrupt, stored, Write, written, kept_old,
  failed_late, Store, Result, ok, err, load, advance, next, queued_max,
}

-- What the file guarantees to the next process of this agent.
abbrev pub Durable : String → CounterFile → ℕ → Type 0
Durable id missing n = n ≡ 0
Durable id unreadable n = Unit
Durable id corrupt n = Unit
Durable id (stored s) n = (n ≡ 0) ⊎ ((s.agent_id ≡ id) × (n ≤ s.reserved))

-- One life of an agent after another, with the numbers it has issued, newest first.
pub record World : Type 0 where
  pub store : Store
  pub issued : List ℕ

abbrev pub top : List ℕ → ℕ
top [] = 0
top (n ∷ ns) = n

-- Each number is larger than all that were issued before it.
abbrev pub Falls : List ℕ → Type 0
Falls [] = Unit
Falls (n ∷ ns) = (top ns < n) × Falls ns

module _ (id : String) where
  pub data Step : World → World → Type 0 where
    issues :
        (w : World) (how : Write) (t : Store) (n : ℕ)
        → next how w.store ≡ (t, ok n)
        → Step w (record { store = t; issued = n ∷ w.issued })
    fails :
        (w : World) (how : Write) (t : Store) (e : hope.Agent.Sequence.Error)
        → next how w.store ≡ (t, err e)
        → Step w (record { store = t; issued = w.issued })
    learns :
        (w : World) (how : Write) (watermark : ℕ)
        → Step w (record { store = (advance how watermark w.store).0; issued = w.issued })
    restarts :
        (w : World) (queue : List AgentReport) (c : Sequence)
        → load w.store.file id queue ≡ ok c
        → Step w (record { store = record { counter = c; file = w.store.file }; issued = w.issued })

  pub data Reach (w : World) : World → Type 0 where
    here : Reach w w
    more : {u v : World} → Reach w u → Step u v → Reach w v

  pub record Inv (w : World) : Type 0 where
    pub own : w.store.counter.agent_id ≡ id
    pub ahead : top w.issued ≤ w.store.counter.reserved
    pub on_disk : Durable id w.store.file (top w.issued)
    pub falls : Falls w.issued

  next-Inv :
      (w : World) (how : Write) (t : Store) (n : ℕ)
      → Inv w
      → next how w.store ≡ (t, ok n)
      → Inv (record { store = t; issued = n ∷ w.issued })
  unfolding next advance
  next-Inv w written t n v e = ground arith
  next-Inv w kept_old t n v e = ground arith
  next-Inv w failed_late t n v e = ground arith

  fail-Inv :
      (w : World) (how : Write) (t : Store) (e : hope.Agent.Sequence.Error)
      → Inv w
      → next how w.store ≡ (t, err e)
      → Inv (record { store = t; issued = w.issued })
  unfolding next advance
  fail-Inv w written t e v h = ground arith
  fail-Inv w kept_old t e v h = ground arith
  fail-Inv w failed_late t e v h = ground arith

  learn-Inv :
      (w : World) (how : Write) (watermark : ℕ)
      → Inv w
      → Inv (record { store = (advance how watermark w.store).0; issued = w.issued })
  unfolding advance
  learn-Inv w written watermark v = ground arith
  learn-Inv w kept_old watermark v = ground arith
  learn-Inv w failed_late watermark v = ground arith

  load-Durable :
      (file : CounterFile) (queue : List AgentReport) (c : Sequence) (n : ℕ)
      → Durable id file n
      → load file id queue ≡ ok c
      → (c.agent_id ≡ id) × (n ≤ c.reserved)
  unfolding load
  load-Durable missing queue c n d e = ground arith
  load-Durable unreadable queue c n d e = ground arith
  load-Durable corrupt queue c n d e = ground arith
  load-Durable (stored s) queue c n (inl d) e = ground arith
  load-Durable (stored s) queue c n (inr d) e = ground (arith, str_eq_iff s.agent_id id)

  restart-Inv :
      (w : World) (queue : List AgentReport) (c : Sequence)
      → Inv w
      → load w.store.file id queue ≡ ok c
      → Inv (record { store = record { counter = c; file = w.store.file }; issued = w.issued })
  restart-Inv w queue c v e =
      let (own, ahead) = load-Durable w.store.file queue c (top w.issued) v.on_disk e in
      record { own = own; ahead = ahead; on_disk = v.on_disk; falls = v.falls }

  Step-Inv : {u v : World} → Step u v → Inv u → Inv v
  Step-Inv (issues w how t n e) i = next-Inv w how t n i e
  Step-Inv (fails w how t e h) i = fail-Inv w how t e i h
  Step-Inv (learns w how watermark) i = learn-Inv w how watermark i
  Step-Inv (restarts w queue c e) i = restart-Inv w queue c i e

  Reach-Inv : {u v : World} → Inv u → Reach u v → Inv v
  Reach-Inv i here = i
  Reach-Inv i (more r st) = Step-Inv st (Reach-Inv i r)

  -- A process that has just loaded its counter and issued nothing.
  abbrev pub started : CounterFile → Sequence → World
  started file c = record { store = record { counter = c; file = file }; issued = [] }

  -- Across any number of issued numbers, failed writes (before or after the file was replaced),
  -- watermarks learnt from the server, crashes and restarts, each number that an agent issues is
  -- larger than all it issued before.
  pub Reach-Falls :
      (file : CounterFile) (queue : List AgentReport) (c : Sequence) (w : World)
      → load file id queue ≡ ok c
      → Reach (started file c) w
      → Falls w.issued
  Reach-Falls file queue c w e r = (Reach-Inv start r).falls
    where
      start : Inv (started file c)
      start = record {
        own = (load-Durable file queue c 0 (fresh file) e).0;
        ahead = omega arith;
        on_disk = fresh file;
        falls = tt;
      }
        where
          fresh : (f : CounterFile) → Durable id f 0
          fresh missing = refl
          fresh unreadable = tt
          fresh corrupt = tt
          fresh (stored s) = inl refl
