-- ===== src/Manager/Candidates/Slots.antt =====
-- The slots OnCandidatesReady, OnCandidatesAllocationDone and OnRWChangeState of a transport that
-- lives.
use ipop_tincan.Prelude.{
  ℕ, ◌≡◌, refl, some, List, [], ◌∷◌, ◌++◌, map, arith, Bytes, nat_eq, bytes_eq,
}
use ipop_tincan.Map.{find, insert}
use ipop_tincan.Manager.{Manager, Libjingle, Net, k_con_resp, k_con_stat, k_local_controller_id}
use ipop_tincan.Manager.Types.{Candidate, Peer, send_to_peer, watch_port}
use ipop_tincan.Manager.Links.Safety.{IsConsistent}
use ipop_tincan.Manager.Links.Replacing.{replaced-IsConsistent}
use ipop_tincan.Manager.Signals.{
  transport_uid, on_rw_change_state, status, status_text, Status, online, offline, unknown,
}
use ipop_tincan.Manager.Candidates.{
  collect, spaced, on_candidates_ready, on_candidates_allocation_done,
}

module _ (m : Manager) (c : IsConsistent m) (t : ℕ) (uid : Bytes)
    (live : find t m.transport_map ≡ some uid) where
  transport_uid-live : transport_uid m t ≡ (uid, m)
  unfolding transport_uid
  transport_uid-live = ground arith

  pub on_candidates_ready-live :
      (lib : Libjingle) (cs : List Candidate)
      → (m' : Manager) × (on_candidates_ready lib m t cs ≡ some m') × IsConsistent m'
  on_candidates_ready-live lib cs =
      let (p, there, same) = c.owned t uid live in
      let q = record p { candidate_list = collect lib m cs p.candidate_list } in
      (
        record m { uid_map = insert uid q m.uid_map },
        unfold on_candidates_ready in ground (arith, transport_uid-live, there),
        replaced-IsConsistent m uid p q c there refl refl,
      )

  pub on_candidates_allocation_done-live :
      (p : Peer) × (find uid m.uid_map ≡ some p)
      × (on_candidates_allocation_done m t
          ≡ some (
            m,
            send_to_peer p.overlay_id uid (m.fingerprint ++ spaced p.candidate_list) k_con_resp
                ∷ [],
          ))
  on_candidates_allocation_done-live =
      let (p, there, same) = c.owned t uid live in
      (
        p,
        there,
        unfold on_candidates_allocation_done in ground (arith, transport_uid-live, there, live),
      )

  pub on_rw_change_state-live :
      (net : Net)
      → (text : Bytes) × (ports : List ℕ) × (on_rw_change_state net m t
          ≡ some (m, send_to_peer k_local_controller_id uid text k_con_stat ∷ map watch_port ports))
  on_rw_change_state-live net = go (status net t) refl
    where
      go :
          (s : Status)
          → status net t ≡ s
          → (text : Bytes) × (ports : List ℕ) × (on_rw_change_state net m t
              ≡ some (
                m,
                send_to_peer k_local_controller_id uid text k_con_stat ∷ map watch_port ports,
              ))
      go online e =
          let (p, there, same) = c.owned t uid live in
          (
            status_text online,
            net.ports p.channel,
            unfold on_rw_change_state in ground (arith, transport_uid-live, e, there),
          )
      go offline e = (
        status_text offline,
        [],
        unfold on_rw_change_state in ground (arith, transport_uid-live, e),
      )
      go unknown e = (
        status_text unknown,
        [],
        unfold on_rw_change_state in ground (arith, transport_uid-live, e),
      )
