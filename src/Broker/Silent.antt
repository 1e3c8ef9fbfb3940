-- ===== src/Broker/Silent.antt =====
-- The steps of the broker that send nothing.
use vibe_coding_secret_manag.Prelude.{◌≡◌, List, arith, Bytes}
use vibe_coding_secret_manag.Machine.Exec.{Exec}
use vibe_coding_secret_manag.Machine.Triples.{
  Keeps, Keeps-from, Keeps-after, Keeps-pure, Keeps-lift, Keeps-bind, keeping,
}
use vibe_coding_secret_manag.Api.{Response}
use vibe_coding_secret_manag.Broker.{
  opened_by, Host, Service, in_store, get_store, status, hold_power, release_power, new_value,
}
use vibe_coding_secret_manag.Broker.Handle.{
  unlock_case, lock_case, create_case, rotate_case, revoke_case, list_case, configure_case,
  actions_case, audit_case,
}

-- The client has received these responses.
abbrev pub Sent : List Response → Service → Type 0
Sent l s = s.sent ≡ l

module _ {l : List Response} where
  pub in_store-Keeps : {A : Type 0} (m : Exec A) → Keeps (Sent l) (in_store m)
  unfolding in_store
  in_store-Keeps m = Keeps-from (λ s p. p)

  pub release_power-Keeps : Keeps (Sent l) release_power
  unfolding release_power
  release_power-Keeps = Keeps-from (λ s p. p)

  module _ (host : Host) where
    pub get_store-Keeps : Keeps (Sent l) (get_store host)
    unfolding get_store opened_by
    get_store-Keeps = Keeps-from (λ s p. ground (arith, p))

    pub status-Keeps : Keeps (Sent l) (status host)
    unfolding status
    status-Keeps = Keeps-from (λ s p. Keeps-after get_store-Keeps s p)

    pub hold_power-Keeps : Keeps (Sent l) (hold_power host)
    unfolding hold_power
    hold_power-Keeps = Keeps-from (λ s p. p)

    pub new_value-Keeps : (name : Bytes) → Keeps (Sent l) (new_value host name)
    unfolding new_value
    new_value-Keeps name = Keeps-from (λ s p. p)

pub ruleset silent = (
  keeping, in_store-Keeps, release_power-Keeps, get_store-Keeps, status-Keeps, hold_power-Keeps,
  new_value-Keeps,
)

module _ {l : List Response} (host : Host) (encoded : Bytes) where
  pub unlock_case-Keeps : Keeps (Sent l) (unlock_case host encoded)
  unfolding unlock_case
  unlock_case-Keeps = search silent depth 9

  pub create_case-Keeps : Keeps (Sent l) (create_case host encoded)
  unfolding create_case
  create_case-Keeps = search silent depth 9

  pub rotate_case-Keeps : Keeps (Sent l) (rotate_case host encoded)
  unfolding rotate_case
  rotate_case-Keeps = search silent depth 9

  pub revoke_case-Keeps : Keeps (Sent l) (revoke_case host encoded)
  unfolding revoke_case
  revoke_case-Keeps = search silent depth 9

  pub list_case-Keeps : Keeps (Sent l) (list_case host encoded)
  unfolding list_case
  list_case-Keeps = search silent depth 9

  pub configure_case-Keeps : Keeps (Sent l) (configure_case host encoded)
  unfolding configure_case
  configure_case-Keeps = search silent depth 9

  pub actions_case-Keeps : Keeps (Sent l) (actions_case host encoded)
  unfolding actions_case
  actions_case-Keeps = search silent depth 9

  pub audit_case-Keeps : Keeps (Sent l) (audit_case host encoded)
  unfolding audit_case
  audit_case-Keeps = search silent depth 9

pub lock_case-Keeps : {l : List Response} (host : Host) → Keeps (Sent l) (lock_case host)
unfolding lock_case
lock_case-Keeps host = search silent depth 9
