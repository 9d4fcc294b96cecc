-- ===== src/AuditLog/Tests.antt =====
-- Runs of the auditlog crate's tests, and instances of the theorems. The hash is a checksum, the
-- file a list of lines in which one known entry has a line.
use secureops.Prelude.{
  ℕ, zero, suc, ◌+◌, ◌%◌, ◌≡◌, ◌≢◌, ◌⊎◌, refl, sym, ap, ◌∙◌, subst, Bool, true, false, ◌&&◌, some,
  List, [], ◌∷◌, ◌++◌, String, arith, Result, ok, err, ◌==◌, same, same_iff, str_eq, str_eq_iff,
  trim, if◌then◌else◌,
}
use secureops.AuditLog.Hex.{Bytes, to_hex, from_hex}
use secureops.AuditLog.Types.{Text, Hashing, HasDigests, LogEntry, chain_hash, chain_broken}
use secureops.AuditLog.Signer.{
  Signer, IsSound, Ed25519, IsEd25519, in_memory, in_memory_sign, in_memory_verify,
  in_memory-IsSound,
}
use secureops.AuditLog.Log.{Store, AuditLog, new, append, verify_from, verify_chain, genesis_hash}
use secureops.AuditLog.Log.Chain.{append_each, append_each-verify_chain}
use secureops.AuditLog.Log.Tamper.{Collides, payloads, verify_chain-Collides}
use secureops.AuditLog.Log.Segment.{retime, verify_chain-retime}
use secureops.AuditLog.Open.{open_log, opened, broken_at}
use secureops.AuditLog.Open.Reopen.{IsDurable, append_all, open_log-append_all}
use secureops.AuditLog.Open.Lost.{open_log-lost}

abbrev zeros : ℕ → List ℕ
zeros zero = []
zeros (suc n) = 0 ∷ zeros n

zeros-Bytes : (n : ℕ) → Bytes (zeros n)
zeros-Bytes zero = tt
zeros-Bytes (suc n) = (omega arith, zeros-Bytes n)

abbrev sum : List ℕ → ℕ
sum [] = 0
sum (c ∷ s) = c + sum s

abbrev payload_text : Bool → Text
payload_text true = 116 ∷ []
payload_text false = 102 ∷ []

abbrev checksum : Hashing
checksum = record {
  Value = Bool;
  to_string = λ b. ok (payload_text b);
  sha256 = λ t. sum t % 256 ∷ zeros 31;
}

checksum-HasDigests : HasDigests checksum
checksum-HasDigests = record { bytes = λ t. (omega arith, zeros-Bytes 31); width = λ t. refl }

abbrev ed25519 : Ed25519
ed25519 = record {
  SigningKey = Unit {0};
  sign = λ key hash. zeros 64;
  verify = λ key hash signature. true;
}

ed25519-IsEd25519 : IsEd25519 ed25519
ed25519-IsEd25519 = record {
  bytes = λ key hash. zeros-Bytes 64;
  width = λ key hash. refl;
  verifies = λ key hash. refl;
}

abbrev signer : Signer
signer = in_memory ed25519 tt

signer-IsSound : IsSound signer
signer-IsSound = in_memory-IsSound ed25519 ed25519-IsEd25519 tt

abbrev same_bool : Bool → Bool → Bool
same_bool true true = true
same_bool false false = true
same_bool _ _ = false

abbrev same_entry : LogEntry checksum → LogEntry checksum → Bool
same_entry e k =
    e.seq == k.seq
    && str_eq e.timestamp k.timestamp
    && same e.prev_hash k.prev_hash
    && same_bool e.payload k.payload
    && same e.hash k.hash
    && same e.signature k.signature

same_entry-known : (e k : LogEntry checksum) → same_entry e k ≡ true → e ≡ k
same_entry-known e k s = ground (
  arith,
  s,
  str_eq_iff e.timestamp k.timestamp,
  same_iff e.prev_hash k.prev_hash,
  same_iff e.hash k.hash,
  same_iff e.signature k.signature,
)

abbrev files : LogEntry checksum → Store checksum
files known = record {
  File = List Text;
  append_line = λ line file. (ok tt, file ++ line ∷ []);
  lines = λ file. ok file;
  entry_to_string = λ e. if same_entry e known then ok (65 ∷ []) else err "refused";
  entry_from_str = λ line. if same line (65 ∷ []) then ok known else err "no such line";
}

reads_known :
    (known e : LogEntry checksum) (line : Text) (b : Bool)
    → same_entry e known ≡ b
    → if◌then◌else◌ {A = Result String Text} b (ok (65 ∷ [])) (err "refused") ≡ ok line
    → (trim line ≢ []) × ((files known).entry_from_str (trim line) ≡ ok e)
unfolding trim
reads_known known e line false k s = ground arith
reads_known known e line true k s =
    subst (λ x. (trim x ≢ []) × ((files known).entry_from_str (trim x) ≡ ok e)) {x = 65 ∷ []}
      {y = line} (ground (arith, s)) (λ x. ground arith, ap ok (sym (same_entry-known e known k)))

files-IsDurable : (known : LogEntry checksum) → IsDurable checksum (files known)
files-IsDurable known = record {
  appends = λ line file ls p q. ground (arith, p);
  reads = λ e line s. reads_known known e line (same_entry e known) refl s;
}

-- lib.rs:498 of the tests: two appends are linked and verify; a changed payload breaks the chain.
abbrev store : Store checksum
store = files (record {
  seq = 0;
  timestamp = "t0";
  prev_hash = [];
  payload = true;
  hash = [];
  signature = [];
})

abbrev two : AuditLog checksum store
unfolding append_each new
two = append_each checksum store ((true, "t0") ∷ (false, "t1") ∷ []) (new checksum store signer)

abbrev changed : List (LogEntry checksum) → List (LogEntry checksum)
changed [] = []
changed (e ∷ es) = record e { payload = false } ∷ es

tamper_test :
    (verify_chain checksum store two ≡ ok true)
    × (verify_chain checksum store (record two { entries = changed two.entries })
        ≡ err (chain_broken 0 "payload tampered (hash mismatch)"))
unfolding two append verify_chain in_memory_sign chain_hash genesis_hash to_hex from_hex
    in_memory_verify verify_from
tamper_test = (refl, refl)

append_each-verify_chain_example :
    verify_chain checksum store
      (append_each checksum store ((true, "t0") ∷ (false, "t1") ∷ []) (new checksum store signer))
    ≡ ok true
append_each-verify_chain_example =
    append_each-verify_chain checksum store signer ((true, "t0") ∷ (false, "t1") ∷ [])
      signer-IsSound

two-verified : verify_chain checksum store two ≡ ok true
unfolding two
two-verified = append_each-verify_chain_example

-- The same payloads, logged at another time.
abbrev moved : AuditLog checksum store
moved = record two { entries = retime checksum store (λ e. "later") two.entries }

moved-verified : verify_chain checksum store moved ≡ ok true
moved-verified = verify_chain-retime checksum store (λ e. "later") two ∙ two-verified

verify_chain-Collides_example :
    (payloads checksum store two.entries ≡ payloads checksum store moved.entries)
    ⊎ Collides checksum store two.entries moved.entries
unfolding two append in_memory_sign
verify_chain-Collides_example =
    verify_chain-Collides checksum store two moved checksum-HasDigests two-verified moved-verified
      refl refl

verify_chain-retime_example :
    verify_chain checksum store
      (record two { entries = retime checksum store (λ e. "later") two.entries })
    ≡ verify_chain checksum store two
verify_chain-retime_example = verify_chain-retime checksum store (λ e. "later") two

-- The entries that a restart and a lost line are tried on.
abbrev first : LogEntry checksum
first = record {
  seq = 0;
  timestamp = "t0";
  prev_hash = genesis_hash;
  payload = true;
  hash = chain_hash checksum genesis_hash true;
  signature = to_hex (zeros 64);
}

abbrev second : LogEntry checksum
second = record {
  seq = 1;
  timestamp = "t1";
  prev_hash = first.hash;
  payload = false;
  hash = chain_hash checksum first.hash false;
  signature = to_hex (zeros 64);
}

open_log-append_all_example :
    (file : List Text) × ((opened checksum
        (files first)
        ((65 ∷ []) ∷ [])
        signer
        (first ∷ [])).persist_path
      ≡ some file)
    × (open_log checksum (files first) file signer
        ≡ ok (opened checksum (files first) ((65 ∷ []) ∷ []) signer (first ∷ [])))
unfolding open_log append_all append genesis_hash chain_hash to_hex in_memory_sign
open_log-append_all_example =
    open_log-append_all checksum (files first) ((true, "t0") ∷ []) [] signer
      (opened checksum (files first) [] signer [])
      (opened checksum (files first) ((65 ∷ []) ∷ []) signer (first ∷ [])) (files-IsDurable first)
      refl refl

abbrev fresh : AuditLog checksum (files second)
fresh = opened checksum (files second) [] signer []

abbrev after_loss : AuditLog checksum (files second)
after_loss = (append checksum (files second) true "t0" fresh).1

open_log-lost_example :
    (file : List Text) × ((append checksum (files second) false "t1" after_loss).1.persist_path
      ≡ some file)
    × (open_log checksum (files second) file signer ≡ err (broken_at after_loss.next_seq))
unfolding open_log append genesis_hash chain_hash to_hex in_memory_sign
open_log-lost_example =
    open_log-lost checksum (files second) true false "t0" "t1" (to_hex (zeros 64)) [] fresh second
      (files-IsDurable second) refl refl refl (λ x. ground (arith, x)) refl
