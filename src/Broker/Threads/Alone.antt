-- ===== src/Broker/Threads/Alone.antt =====
-- A thread without any other against Handle.
use vibe_coding_secret_manag.Prelude.{◌≡◌, refl, sym, ◌∙◌, ap}
use vibe_coding_secret_manag.Outcome.{Result, ok, err}
use vibe_coding_secret_manag.Machine.Exec.{Exec, Machine, pure, ◌>>=◌}
use vibe_coding_secret_manag.Api.{Answer}
use vibe_coding_secret_manag.Broker.{Host, Service, Serve, in_store, fail, done, status}
use vibe_coding_secret_manag.Broker.Threads.{Thread, run_alone, go_on, act, answers, status_thread}

module _ (host : Host) where
  -- What is done with the result of a run: `after` where it succeeds, and else fail.
  unfoldable pub finish : {A : Type 0} → (A → Service → Service) → Result A × Service → Service
  finish after (ok a, s) = after a s
  finish after (err e, s) = fail host e s

  -- The thread alone does what the run does.
  pub record Alone {A : Type 0} (after : A → Service → Service) (m : Serve A) (thread : Thread)
      : Type 0 where
    pub at : (s : Service) → run_alone thread s ≡ finish after (m s)

  module _ {A B : Type 0} {after : B → Service → Service} where
    pub Alone-act :
        (m : Serve A) (f : A → Serve B) (rest : A → Thread)
        → ((a : A) → Alone after (f a) (rest a))
        → Alone after (m >>= f) (act host m rest)
    unfolding act run_alone go_on finish ◌>>=◌
    Alone-act m f rest p = record { at = λ s. go (m s) }
      where
        go :
            (r : Result A × Service)
            → run_alone (go_on host rest r.0) r.1 ≡ finish after (((λ t. r) >>= f) r.1)
        go (ok a, t) = (p a).at t
        go (err e, t) = refl

  module _ {A B C : Type 0} {after : C → Service → Service} where
    -- A run of the store is its steps, each of them within the broker.
    pub Alone-split :
        (m : Exec A) (f : A → Exec B) (g : B → Serve C) (thread : Thread)
        → Alone after (in_store m >>= λ a. in_store (f a) >>= g) thread
        → Alone after (in_store (m >>= f) >>= g) thread
    unfolding in_store ◌>>=◌
    Alone-split m f g thread p = record {
      at = λ s. p.at s ∙ sym (ap (finish after) (go (m s.store) s));
    }
      where
        go :
            (r : Result A × Machine) (s : Service)
            → (in_store ((λ t. r) >>= f) >>= g) s
              ≡ (in_store (λ t. r) >>= λ a. in_store (f a) >>= g) s
        go (ok a, t) s = refl
        go (err e, t) s = refl

  module _ {A B : Type 0} {after : B → Service → Service} where
    pub Alone-pure :
        (a : A) (g : A → Serve B) (thread : Thread)
        → Alone after (g a) thread
        → Alone after (in_store (pure a) >>= g) thread
    unfolding in_store pure ◌>>=◌
    Alone-pure a g thread p = record { at = λ s. p.at s }

  pub Alone-answers : (answer : Answer) → Alone (done host) (pure answer) (answers host answer)
  unfolding pure answers run_alone finish
  Alone-answers answer = record { at = λ s. refl }

  pub Alone-status : Alone (done host) (status host) (status_thread host)
  unfolding status status_thread answers run_alone finish
  Alone-status = record { at = λ s. refl }

pub ruleset alone_rules = (Alone-act, Alone-split, Alone-pure, Alone-answers, Alone-status)
