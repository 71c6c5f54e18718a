-- ===== src/Kx/Hybrid/Agreement.antt =====
-- The contract of a key exchange group, and that a hybrid of two groups keeps it.
use macula_pq.Common.{ℕ, ◌+◌, ◌≡◌, refl, sym, ap₂, ◌∙◌, arith, some, List, length}
use macula_pq.Common.Outcome.{ok}
use macula_pq.Kx.Hybrid.{
  ActiveKeyExchange, CompletedKeyExchange, KxGroup, Hybrid, ActiveHybrid, concat, checked_sub,
  complete_hybrid, start_hybrid, start_and_complete_hybrid, hybrid_group, active_hybrid,
}
use macula_pq.Kx.Hybrid.Split.{split-concat, length-concat}

-- One exchange between a client, whose randomness is `s`, and a server, whose randomness is `t`:
-- both sides end in one secret, and their shares have the lengths `client_len` and `server_len`.
pub record IsExchange {S : Type 0} (group : KxGroup S) (client_len server_len : ℕ) (s t : S)
    : Type 0 where
  pub client : ActiveKeyExchange
  pub client_after : S
  pub server : CompletedKeyExchange
  pub server_after : S
  pub starts : group.start s ≡ ok (client, client_after)
  pub completes : group.start_and_complete client.pub_key t ≡ ok (server, server_after)
  pub agrees : client.complete server.pub_key ≡ ok server.secret
  pub client_size : length client.pub_key ≡ client_len
  pub server_size : length server.pub_key ≡ server_len

-- A group whose exchanges all succeed, with shares of fixed lengths.
abbrev pub IsKeyExchange : {S : Type 0} → KxGroup S → ℕ → ℕ → Type 0
IsKeyExchange {S} group client_len server_len =
    (s t : S) → IsExchange group client_len server_len s t

-- Completing splits what the server concatenated, whatever the length of the second part.
complete-concat :
    (a : ActiveHybrid) (pq_share cl_share pq cl : List ℕ)
    → length cl_share ≡ a.classical_share_len
    → a.classical.complete cl_share ≡ ok cl
    → a.post_quantum.complete pq_share ≡ ok pq
    → complete_hybrid a (concat a.post_quantum_first pq_share cl_share)
      ≡ ok (concat a.post_quantum_first pq cl)
unfolding complete_hybrid
complete-concat a pq_share cl_share pq cl size e e' =
    let both = concat a.post_quantum_first pq_share cl_share in
    let rest : checked_sub (length both) a.classical_share_len ≡ some (length pq_share) =
      rw (length-concat a.post_quantum_first pq_share cl_share, sym size) (ground arith) in
    rw (rest, complete_hybrid, sym size, split-concat a.post_quantum_first pq_share cl_share, e, e')
      refl

module _ {S : Type 0} (hybrid : Hybrid S) where
  -- The hybrid exchange of two that have started.
  abbrev in_flight : ActiveKeyExchange → ActiveKeyExchange → ActiveHybrid
  in_flight cl pq = record {
    classical = cl;
    post_quantum = pq;
    name = hybrid.name;
    post_quantum_first = hybrid.post_quantum_first;
    classical_share_len = length cl.pub_key;
    combined_pub_key = concat hybrid.post_quantum_first pq.pub_key cl.pub_key;
  }

  abbrev combined : CompletedKeyExchange → CompletedKeyExchange → CompletedKeyExchange
  combined cl pq = record {
    group = hybrid.name;
    pub_key = concat hybrid.post_quantum_first pq.pub_key cl.pub_key;
    secret = concat hybrid.post_quantum_first pq.secret cl.secret;
  }

  group_start :
      (s s' s'' : S) (cl pq : ActiveKeyExchange)
      → hybrid.classical.start s ≡ ok (cl, s')
      → hybrid.post_quantum.start s' ≡ ok (pq, s'')
      → (hybrid_group hybrid).start s ≡ ok (active_hybrid (in_flight cl pq), s'')
  unfolding hybrid_group start_hybrid
  group_start s s' s'' cl pq e e' = rw (e, e') refl

  -- A server whose own measurements have the lengths of the shares it is sent.
  group_completes :
      (s s' t t' t'' : S) (cl pq : ActiveKeyExchange) (cl_share pq_share : List ℕ)
      (cl_done pq_done : CompletedKeyExchange)
      → hybrid.classical.start s ≡ ok (cl, s')
      → hybrid.post_quantum.start s' ≡ ok (pq, t)
      → length cl.pub_key ≡ length cl_share
      → length pq.pub_key ≡ length pq_share
      → hybrid.classical.start_and_complete cl_share t ≡ ok (cl_done, t')
      → hybrid.post_quantum.start_and_complete pq_share t' ≡ ok (pq_done, t'')
      → (hybrid_group hybrid).start_and_complete
          (concat hybrid.post_quantum_first pq_share cl_share)
          s
        ≡ ok (combined cl_done pq_done, t'')
  unfolding hybrid_group start_and_complete_hybrid
  group_completes s s' t t' t'' cl pq cl_share pq_share cl_done pq_done e e' l l' d d' =
      rw (e, e', l, l', split-concat hybrid.post_quantum_first pq_share cl_share, d, d') refl

module _ {S : Type 0} (hybrid : Hybrid S) (share n m : ℕ)
    (classical : IsKeyExchange hybrid.classical share share)
    (post_quantum : IsKeyExchange hybrid.post_quantum n m) where
  -- If every exchange of the classical group and of the post-quantum group succeeds, with equal
  -- secrets on both sides and shares of fixed lengths, the classical shares of one length on both
  -- sides, then so does every exchange of the hybrid of the two, in either order of its parts:
  -- the client's and the server's secrets are equal, and the shares are as long as the two parts'
  -- together.
  pub hybrid_group-IsKeyExchange : IsKeyExchange (hybrid_group hybrid) (share + n) (share + m)
  unfolding active_hybrid
  hybrid_group-IsKeyExchange s t =
      let sized = classical t t in
      let sized' = post_quantum sized.client_after t in
      let cl = classical s sized'.client_after in
      let pq = post_quantum cl.client_after cl.server_after in
      let a = in_flight hybrid cl.client pq.client in
      let same : length cl.server.pub_key ≡ length cl.client.pub_key =
        cl.server_size ∙ sym cl.client_size in
      record {
        client = active_hybrid a;
        client_after = pq.client_after;
        server = combined hybrid cl.server pq.server;
        server_after = pq.server_after;
        starts =
            group_start hybrid s cl.client_after pq.client_after cl.client pq.client cl.starts
              pq.starts;
        completes =
            group_completes hybrid t sized.client_after sized'.client_after cl.server_after
              pq.server_after sized.client sized'.client cl.client.pub_key pq.client.pub_key
              cl.server pq.server sized.starts sized'.starts
              (sized.client_size ∙ sym cl.client_size) (sized'.client_size ∙ sym pq.client_size)
              cl.completes pq.completes;
        agrees =
            complete-concat a pq.server.pub_key cl.server.pub_key pq.server.secret cl.server.secret
              same cl.agrees pq.agrees;
        client_size =
            length-concat hybrid.post_quantum_first pq.client.pub_key cl.client.pub_key
            ∙ ap₂ ◌+◌ cl.client_size pq.client_size;
        server_size =
            length-concat hybrid.post_quantum_first pq.server.pub_key cl.server.pub_key
            ∙ ap₂ ◌+◌ cl.server_size pq.server_size;
      }
