-- ===== src/Tests/Toy.antt =====
-- Concrete functions in place of the libraries around the vault, which obey their laws.
use vibe_coding_secret_manag.Prelude.{
  ℕ, zero, suc, ◌≡◌, refl, sym, ap, subst, true, false, [], ◌∷◌, ◌++◌, Option, none, some, Bytes,
  codes, length, ◌==◌, ==_refl, if◌then◌else◌, take, drop, decimal,
}
use vibe_coding_secret_manag.Model.{Time, Scope, SecretMetadata, Action, AuditEvent}
use vibe_coding_secret_manag.Machine.Tables.{Db}
use vibe_coding_secret_manag.Machine.Env.{Env, KdfParams, OpensSealed}
use vibe_coding_secret_manag.Machine.Exec.{KeySet, Machine}
use vibe_coding_secret_manag.SecureCrypto.{nonce_size}
use vibe_coding_secret_manag.Vault.Secrets.Prepared.{FullReads}
use vibe_coding_secret_manag.Vault.Audit.Log.{ReadsBack}

-- the text behind a prefix
abbrev pub strip : Bytes → Bytes → Option Bytes
strip [] s = some s
strip (a ∷ p) [] = none
strip (a ∷ p) (c ∷ s) = if a == c then strip p s else none

strip_append : (p s : Bytes) → strip p (p ++ s) ≡ some s
strip_append [] s = refl
strip_append (a ∷ p) s = rw (==_refl a) (strip_append p s)

abbrev pub filled : ℕ → ℕ → Bytes
filled zero n = []
filled (suc k) n = n ∷ filled k n

abbrev pub params_of : Bytes → Option KdfParams
params_of (m ∷ i ∷ p ∷ []) = some (record { memory_kib = m; iterations = i; parallelism = p })
params_of _ = none

abbrev pub sample_scope : Scope
sample_scope = record { project = codes "web"; environment = codes "dev" }

abbrev pub sample_secret : SecretMetadata
sample_secret = record {
  id = codes "s1";
  project = codes "web";
  environment = codes "dev";
  name = codes "db";
  profile = codes "default";
  strength_bits = 258;
  version = 1;
  state = codes "active";
  created_at = record { sec = 0; nano = 0 };
  updated_at = record { sec = 0; nano = 0 };
}

abbrev pub sample_action : Action
sample_action = record {
  id = codes "a1";
  project = codes "web";
  environment = codes "dev";
  name = codes "run";
  executable = codes "/bin/true";
  arguments = [];
  directory = [];
  secrets = [];
  output_policy = codes "redact";
  created_at = record { sec = 0; nano = 0 };
  updated_at = record { sec = 0; nano = 0 };
}

-- An event as its fields, each text behind its length; the texts are short.
abbrev pub field : Bytes → Bytes → Bytes
field text rest = length text ∷ (text ++ rest)

abbrev pub event_bytes : AuditEvent → Option Bytes
event_bytes e = elim e.timestamp [
  | none ↦ none
  | some at ↦ some (
      at.sec
      ∷ at.nano
      ∷ field e.id (
          field e.actor
            (field e.operation (field e.object_id (field e.outcome (field e.detail []))))))
]

abbrev pub front : Bytes → Bytes
front [] = []
front (n ∷ s) = take n s

abbrev pub behind : Bytes → Bytes
behind [] = []
behind (n ∷ s) = drop n s

abbrev pub event_fields : Time → Bytes → AuditEvent
event_fields at s = record {
  id = front s;
  timestamp = some at;
  actor = front (behind s);
  operation = front (behind (behind s));
  object_id = front (behind (behind (behind s)));
  outcome = front (behind (behind (behind (behind s))));
  detail = front (behind (behind (behind (behind (behind s)))));
}

abbrev pub event_of : Bytes → Option AuditEvent
event_of (sec ∷ nano ∷ s) = some (event_fields (record { sec = sec; nano = nano }) s)
event_of _ = none

abbrev pub toy : Env
toy = record {
  argon2 = λ password salt iterations memory lanes. password ++ salt;
  hkdf = λ key info. some (key ++ info);
  accepts_key = λ key. true;
  aead_seal = λ key nonce plaintext associated. associated ++ plaintext;
  aead_open = λ key nonce ciphertext associated. strip associated ciphertext;
  hmac = λ key message. length key ∷ message;
  base64 = λ bytes. bytes;
  random = λ n size. some (filled size n);
  now = λ n. record { sec = n; nano = 0 };
  date_text = decimal;
  fault = λ n. false;
  removes = true;
  params_json = record {
    marshal = λ p. some (p.memory_kib ∷ p.iterations ∷ p.parallelism ∷ []);
    unmarshal = params_of;
  };
  secret_json = record { marshal = λ m. some m.name; unmarshal = λ s. some sample_secret };
  action_json = record { marshal = λ a. some a.name; unmarshal = λ s. some sample_action };
  event_json = record { marshal = event_bytes; unmarshal = event_of };
}

pub toy-OpensSealed : OpensSealed toy
toy-OpensSealed = record {
  open_seal = λ key nonce plaintext associated. strip_append associated plaintext;
}

pub toy-FullReads : FullReads toy
toy-FullReads = record {
  sized = λ n bytes h.
      let same : filled nonce_size n ≡ bytes = cc in subst (λ b. length b ≡ nonce_size) same refl;
}

take_front : (s rest : Bytes) → take (length s) (s ++ rest) ≡ s
take_front [] [] = refl
take_front [] (c ∷ rest) = refl
take_front (c ∷ s) rest = ap (◌∷◌ c) (take_front s rest)

drop_front : (s rest : Bytes) → drop (length s) (s ++ rest) ≡ rest
drop_front [] [] = refl
drop_front [] (c ∷ rest) = refl
drop_front (c ∷ s) rest = drop_front s rest

event_reads :
    (e : AuditEvent) (bytes : Bytes) → event_bytes e ≡ some bytes → event_of bytes ≡ some e
event_reads e bytes h = go e.timestamp refl
  where
    texts : Bytes
    texts = field e.id (
        field e.actor (field e.operation (field e.object_id (field e.outcome (field e.detail [])))))

    go : (at : Option Time) → e.timestamp ≡ at → event_of bytes ≡ some e
    go none p = absurd (let bad : none ≡ some bytes = rw p at h in cc)
    go (some at) p =
        let is : ◌≡◌ {A = Option Bytes} (some (at.sec ∷ at.nano ∷ texts)) (some bytes) =
          rw p at h in
        let same : at.sec ∷ at.nano ∷ texts ≡ bytes = cc in
        subst (λ b. event_of b ≡ some e) same
          (simp (take_front, drop_front)
            (ap (λ (t : Option Time). some (record e { timestamp = t })) (sym p)))

pub toy-events : ReadsBack toy.event_json
toy-events = record { reads = event_reads }

pub toy-params : ReadsBack toy.params_json
toy-params = record {
  reads = λ a bytes h.
      let same : a.memory_kib ∷ a.iterations ∷ a.parallelism ∷ [] ≡ bytes = cc in
      subst (λ b. params_of b ≡ some a) same refl;
}

abbrev pub no_rows_yet : Db
no_rows_yet = record { metadata = []; wrappers = []; objects = []; versions = []; audits = [] }

abbrev pub toy_keys : KeySet
toy_keys = record { dek = codes "d"; metadata = codes "m"; lookup = codes "l"; audit = codes "a" }

-- a new, unlocked vault
abbrev pub fresh : Machine
fresh = record {
  db = no_rows_yet;
  vault_id = codes "v";
  keys = some toy_keys;
  draws = 0;
  ticks = 0;
  calls = 0;
}
