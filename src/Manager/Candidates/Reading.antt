-- ===== src/Manager/Candidates/Reading.antt =====
-- The loop of CreateConnections, and the words of its text.
use ipop_tincan.Prelude.{
  ℕ, zero, suc, ◌<◌, ◌≡◌, refl, sym, ap, ◌∙◌, inl, inr, true, some, List, [], ◌∷◌, ◌++◌,
  append_assoc, append-nil, arith, Bytes, nat_eq, bytes_eq, length, ltb, if◌then◌else◌,
}
use ipop_tincan.Map.{find, insert}
use ipop_tincan.Text.Fields.{IsSplit}
use ipop_tincan.Text.Words.{extract, words, extract-words}
use ipop_tincan.Manager.{Manager, Libjingle}
use ipop_tincan.Manager.Candidates.{read_candidate, add_candidate, read_loop, create_connections}
use ipop_tincan.Manager.Types.{Peer, Candidate, on_remote_candidates}

-- The candidates that words stand for: one for each word of at least twelve fields.
unfoldable pub candidates_of : Libjingle → List Bytes → List Candidate
candidates_of lib [] = []
candidates_of lib (w ∷ ws) =
    let fs = lib.split b':' w in
    let rest = candidates_of lib ws in if ltb (length fs) 12 then rest else read_candidate fs ∷ rest

module _ (lib : Libjingle) (law : IsSplit lib.split) where
  add_candidate-nil : (cs : List Candidate) → add_candidate lib [] cs ≡ cs
  unfolding add_candidate
  add_candidate-nil cs = rw (law.whole b':' [] tt)

  add_candidate-word :
      (w : Bytes) (ws : List Bytes) (cs : List Candidate)
      → add_candidate lib w cs ++ candidates_of lib ws ≡ cs ++ candidates_of lib (w ∷ ws)
  unfolding add_candidate candidates_of
  add_candidate-word w ws cs =
      ground
        (arith, append_assoc cs (read_candidate (lib.split b':' w) ∷ []) (candidates_of lib ws))

  pub read_loop-words :
      (fuel : ℕ) (s : Bytes) (cs : List Candidate)
      → length s < fuel
      → read_loop lib fuel s cs ≡ some (cs ++ candidates_of lib (words s))
  unfolding read_loop
  read_loop-words zero s cs h = elim h [ ]
  read_loop-words (suc fuel) s cs h = elim (extract-words s) [
    | inl (e, f) ↦
        rw (e, f, read_loop)
          (ap some (add_candidate-nil cs ∙ sym (append-nil cs) ∙ unfold candidates_of in refl))
    | inr (c, w, e, f, k) ↦
        rw (e, f, read_loop)
          (rw e (
            read_loop-words fuel (extract s).1 (add_candidate lib (c ∷ w) cs) (omega arith)
            ∙ ap some (add_candidate-word (c ∷ w) (words (extract s).1) cs)))
  ]

  -- For a peer without candidates CreateConnections returns, whatever the text: it stores, and
  -- hands to the peer's transport, the candidates of the text's words in order.
  pub create_connections-words :
      (m : Manager) (uid text : Bytes) (p : Peer)
      → find uid m.uid_map ≡ some p
      → p.candidates ≡ []
      → let cs = candidates_of lib (words text) in
        create_connections lib m uid text
        ≡ some (
          record m { uid_map = insert uid (record p { candidates = cs }) m.uid_map },
          true,
          on_remote_candidates p.transport cs ∷ [],
        )
  unfolding create_connections
  create_connections-words m uid text p live e =
      ground (arith, read_loop-words (suc (length text)) text [])
