-- ===== src/Kx/Hybrid.antt =====
-- macula-pqc-kx/src/lib.rs: the hybrid of one classical and one post-quantum group. The groups of
-- rustls enter as records of functions over a source of randomness; every trait call is one of them.
pub mod Split
pub mod Agreement
use macula_pq.Common.{
  ℕ, ◌+◌, ◌-◌, ◌==◌, leb, not, Bool, true, false, if◌then◌else◌, Option, none, some, List, ◌++◌,
  length, take, drop,
}
use macula_pq.Common.Outcome.{Outcome, ok, err, panic, ok_or, ◌>>=◌}

-- rustls's errors, as far as this crate makes them or passes them on.
pub data Error : Type 0 where
  invalid_key_share failed_to_get_random_bytes decaps_check_failed : Error
  other : ℕ → Error

-- rustls's names of groups, as far as this crate uses them.
pub data NamedGroup : Type 0 where
  mlkem768 mlkem1024 secp256r1_mlkem768 : NamedGroup
  unknown : ℕ → NamedGroup

abbrev pub Fallible : Type 0 → Type 0
Fallible A = Outcome Error A

-- `ActiveKeyExchange`: our share, and what the peer's share completes it to.
pub record ActiveKeyExchange : Type 0 where
  pub group : NamedGroup
  pub pub_key : List ℕ
  pub complete : List ℕ → Fallible (List ℕ)

-- `CompletedKeyExchange`.
pub record CompletedKeyExchange : Type 0 where
  pub group : NamedGroup
  pub pub_key : List ℕ
  pub secret : List ℕ

pub data ProtocolVersion : Type 0 where
  tls13 other_version : ProtocolVersion

abbrev pub is_tls13 : ProtocolVersion → Bool
is_tls13 tls13 = true
is_tls13 other_version = false

-- `SupportedKxGroup`; the state `S` of the randomness is passed on by each call.
pub record KxGroup (S : Type 0) : Type 0 where
  pub start : S → Fallible (ActiveKeyExchange × S)
  pub start_and_complete : List ℕ → S → Fallible (CompletedKeyExchange × S)
  pub name : NamedGroup
  pub fips : Bool
  pub usable_for_version : ProtocolVersion → Bool

pub record Hybrid (S : Type 0) : Type 0 where
  pub classical : KxGroup S
  pub post_quantum : KxGroup S
  pub name : NamedGroup
  pub post_quantum_first : Bool

unfoldable pub concat : Bool → List ℕ → List ℕ → List ℕ
concat true post_quantum classical = post_quantum ++ classical
concat false post_quantum classical = classical ++ post_quantum

-- `slice::split_at`, which panics past the end.
unfoldable pub split_at : List ℕ → ℕ → Fallible (List ℕ × List ℕ)
split_at xs mid = if leb mid (length xs) then ok (take mid xs, drop mid xs) else panic

-- The post-quantum and the classical share of a share as long as both, in the order of the flag.
unfoldable pub ordered_parts : Bool → List ℕ → ℕ → ℕ → Fallible (List ℕ × List ℕ)
unfolding split_at
ordered_parts true share classical_len post_quantum_len = split_at share post_quantum_len
ordered_parts false share classical_len post_quantum_len = do
  (classical, post_quantum) ← split_at share classical_len
  ok (post_quantum, classical)

unfoldable pub split : Bool → List ℕ → ℕ → ℕ → Fallible (Option (List ℕ × List ℕ))
unfolding ordered_parts
split post_quantum_first share classical_len post_quantum_len =
    if not (length share == classical_len + post_quantum_len)
    then ok none
    else ordered_parts post_quantum_first share classical_len post_quantum_len >>= λ parts.
        ok (some parts)

pub record ActiveHybrid : Type 0 where
  pub classical : ActiveKeyExchange
  pub post_quantum : ActiveKeyExchange
  pub name : NamedGroup
  pub post_quantum_first : Bool
  pub classical_share_len : ℕ
  pub combined_pub_key : List ℕ

-- `usize::checked_sub`.
abbrev pub checked_sub : ℕ → ℕ → Option ℕ
checked_sub a b = if leb b a then some (a - b) else none

unfoldable pub complete_hybrid : ActiveHybrid → List ℕ → Fallible (List ℕ)
unfolding split concat
complete_hybrid a peer_pub_key = do
  post_quantum_len ←
      ok_or (checked_sub (length peer_pub_key) a.classical_share_len) invalid_key_share
  parts ← split a.post_quantum_first peer_pub_key a.classical_share_len post_quantum_len
  (post_quantum_share, classical_share) ← ok_or parts invalid_key_share
  cl ← a.classical.complete classical_share
  pq ← a.post_quantum.complete post_quantum_share
  ok (concat a.post_quantum_first pq cl)

-- The exchange in flight, as rustls sees it.
unfoldable pub active_hybrid : ActiveHybrid → ActiveKeyExchange
unfolding complete_hybrid
active_hybrid a = record {
  group = a.name;
  pub_key = a.combined_pub_key;
  complete = complete_hybrid a;
}

unfoldable pub hybrid_component : ActiveHybrid → Option (NamedGroup × List ℕ)
hybrid_component a = some (a.classical.group, a.classical.pub_key)

unfoldable pub complete_hybrid_component : ActiveHybrid → List ℕ → Fallible (List ℕ)
complete_hybrid_component a peer_pub_key = a.classical.complete peer_pub_key

module _ {S : Type 0} (hybrid : Hybrid S) where
  unfoldable pub start_hybrid : S → Fallible (ActiveHybrid × S)
  unfolding concat
  start_hybrid s = do
    (classical, s') ← hybrid.classical.start s
    (post_quantum, s'') ← hybrid.post_quantum.start s'
    let combined = concat hybrid.post_quantum_first post_quantum.pub_key classical.pub_key
    ok (
      record {
        classical = classical;
        post_quantum = post_quantum;
        name = hybrid.name;
        post_quantum_first = hybrid.post_quantum_first;
        classical_share_len = length classical.pub_key;
        combined_pub_key = combined;
      },
      s'',
    )

  -- The two exchanges started first only measure the lengths of the shares.
  unfoldable pub start_and_complete_hybrid : List ℕ → S → Fallible (CompletedKeyExchange × S)
  unfolding concat split
  start_and_complete_hybrid client_share s = do
    (classical, s₁) ← hybrid.classical.start s
    (post_quantum, s₂) ← hybrid.post_quantum.start s₁
    parts ←
        split hybrid.post_quantum_first client_share (length classical.pub_key)
          (length post_quantum.pub_key)
    (post_quantum_share, classical_share) ← ok_or parts invalid_key_share
    (cl, s₃) ← hybrid.classical.start_and_complete classical_share s₂
    (pq, s₄) ← hybrid.post_quantum.start_and_complete post_quantum_share s₃
    ok (
      record {
        group = hybrid.name;
        pub_key = concat hybrid.post_quantum_first pq.pub_key cl.pub_key;
        secret = concat hybrid.post_quantum_first pq.secret cl.secret;
      },
      s₄,
    )

  unfoldable pub fips_hybrid : Bool
  fips_hybrid =
      if hybrid.post_quantum_first then hybrid.post_quantum.fips else hybrid.classical.fips

  unfoldable pub hybrid_group : KxGroup S
  unfolding start_hybrid start_and_complete_hybrid active_hybrid fips_hybrid
  hybrid_group = record {
    start = λ s. (do (a, s') ← start_hybrid s; ok (active_hybrid a, s'));
    start_and_complete = start_and_complete_hybrid;
    name = hybrid.name;
    fips = fips_hybrid;
    usable_for_version = is_tls13;
  }

-- The two hybrids, over the elliptic curve's groups and this repository's ML-KEM groups.
abbrev pub secp384r1mlkem1024 : {S : Type 0} → KxGroup S → KxGroup S → Hybrid S
secp384r1mlkem1024 secp384r1 ml_kem_1024 = record {
  classical = secp384r1;
  post_quantum = ml_kem_1024;
  name = unknown 4589;
  post_quantum_first = false;
}

abbrev pub secp256r1mlkem768 : {S : Type 0} → KxGroup S → KxGroup S → Hybrid S
secp256r1mlkem768 secp256r1 ml_kem_768 = record {
  classical = secp256r1;
  post_quantum = ml_kem_768;
  name = secp256r1_mlkem768;
  post_quantum_first = false;
}
