-- ===== src/Program/Launch/Starts.antt =====
-- main of src/tincan.cc: when it starts its threads, and what it has called by then.
use ipop_tincan.Prelude.{
  ℕ, ◌≡◌, ◌↔◌, ◌⊎◌, inl, inr, refl, Bool, true, false, Option, none, some, List, [], ◌∷◌, arith, ap,
  sym, ◌∙◌, Bool-cases, Option-cases, nat_eq, bytes_eq, Bytes,
}
use mathlib.Core.Path.{subst}
use ipop_tincan.Manager.{init}
use ipop_tincan.Manager.Types.{Address}
use ipop_tincan.Start.{k_tap_name, k_udp_port, Interface, free_ip, parse_args}
use ipop_tincan.Program.{Program, Chance, new_program, main}
use ipop_tincan.Program.Launch.{
  StartCall, initialize_ssl, peerlist_init, tap_open, create_udp_socket, local4, local6,
  open_sockets, thread_starts, launch_threads, launch_objects, launch, starts_threads, Listens,
  all_calls,
}

-- What `launch` answers, beside main's answer `m`.
abbrev Runs : (Address → Bool) → List StartCall × Option Program → Option Program → Type 0
Runs bound l m =
    (p : Program) × (l ≡ (all_calls p, some p)) × (m ≡ some p) × Listens bound p.udp_port

abbrev Ends : (Address → Bool) → List StartCall × Option Program → Option Program → Type 0
Ends bound l m =
    (l.1 ≡ none)
    × (starts_threads l.0 ≡ false)
    × ((p : Program) → m ≡ some p → ¬ Listens bound p.udp_port)

-- The calls up to the tap device, and more.
abbrev after_tap : Bytes → List StartCall → List StartCall
after_tap tap_name calls = initialize_ssl ∷ peerlist_init ∷ tap_open tap_name ∷ calls

main-udp_port :
    (args : List Bytes) (opened : Option Bytes) (interfaces : Option (List Interface))
    (chance : Chance) (tap_name : Bytes) (port : ℕ) (p : Program)
    → parse_args args k_tap_name k_udp_port ≡ some (tap_name, port)
    → main args opened interfaces chance ≡ some p
    → p.udp_port ≡ port
unfolding main new_program
main-udp_port args none interfaces chance tap_name port p e h = ground arith
main-udp_port args (some mac) interfaces chance tap_name port p e h =
    elim (Option-cases (free_ip interfaces (init chance.tiebreaker tap_name).tincan_ip4)) [
      | inl f ↦ ground arith
      | inr (ip, f) ↦ ground arith
    ]

launch_sockets_cases :
    (args : List Bytes) (mac : Bytes) (bound : Address → Bool)
    (interfaces : Option (List Interface)) (chance : Chance) (tap_name : Bytes) (port : ℕ)
    → parse_args args k_tap_name k_udp_port ≡ some (tap_name, port)
    → ((bound (local4 port) ≡ false)
        × (launch args (some mac) bound interfaces chance
            ≡ (after_tap tap_name (create_udp_socket (local4 port) ∷ []), none)))
      ⊎ (bound (local6 port) ≡ false)
        × (launch args (some mac) bound interfaces chance ≡ (
          after_tap tap_name
              (create_udp_socket (local4 port) ∷ create_udp_socket (local6 port) ∷ []),
          none,
        ))
      ⊎ Listens bound port
        × (launch args (some mac) bound interfaces chance ≡ (
          after_tap tap_name (
              create_udp_socket (local4 port)
              ∷ create_udp_socket (local6 port)
              ∷ (launch_threads interfaces chance tap_name port mac).0),
          (launch_threads interfaces chance tap_name port mac).1,
        ))
unfolding launch launch_objects open_sockets
launch_sockets_cases args mac bound interfaces chance tap_name port e =
    elim (Bool-cases (bound (local4 port))) [
      | inr b4 ↦ inl (b4, ground arith)
      | inl b4 ↦ elim (Bool-cases (bound (local6 port))) [
        | inr b6 ↦ inr (inl (b6, ground arith))
        | inl b6 ↦ inr (inr ((b4, b6), ground arith))
      ]
    ]

new_program-tap_name :
    (chance : Chance) (tap_name : Bytes) (port : ℕ) (mac ip : Bytes)
    → all_calls (new_program chance tap_name port mac ip)
      ≡ after_tap tap_name
          (create_udp_socket (local4 port) ∷ create_udp_socket (local6 port) ∷ thread_starts)
unfolding new_program init
new_program-tap_name chance tap_name port mac ip = refl

launch_threads-free_ip :
    (args : List Bytes) (mac : Bytes) (interfaces : Option (List Interface)) (chance : Chance)
    (tap_name : Bytes) (port : ℕ)
    → parse_args args k_tap_name k_udp_port ≡ some (tap_name, port)
    → ((main args (some mac) interfaces chance ≡ none)
        × (launch_threads interfaces chance tap_name port mac ≡ ([], none)))
      ⊎ (ip : Bytes) × (main args (some mac) interfaces chance
          ≡ some (new_program chance tap_name port mac ip))
        × (launch_threads interfaces chance tap_name port mac
            ≡ (thread_starts, some (new_program chance tap_name port mac ip)))
unfolding main launch_threads
launch_threads-free_ip args mac interfaces chance tap_name port e =
    elim (Option-cases (free_ip interfaces (init chance.tiebreaker tap_name).tincan_ip4)) [
      | inl f ↦ inl (ground arith, ground arith)
      | inr (ip, f) ↦ inr (ip, ground arith, ground arith)
    ]

new_program-udp_port :
    (chance : Chance) (tap_name : Bytes) (port : ℕ) (mac ip : Bytes)
    → (new_program chance tap_name port mac ip).udp_port ≡ port
unfolding new_program
new_program-udp_port chance tap_name port mac ip = refl

launch_tap_cases :
    (args : List Bytes) (mac : Bytes) (bound : Address → Bool)
    (interfaces : Option (List Interface)) (chance : Chance) (tap_name : Bytes) (port : ℕ)
    → parse_args args k_tap_name k_udp_port ≡ some (tap_name, port)
    → Runs bound
        (launch args (some mac) bound interfaces chance)
        (main args (some mac) interfaces chance)
      ⊎ Ends bound
          (launch args (some mac) bound interfaces chance)
          (main args (some mac) interfaces chance)
unfolding starts_threads
launch_tap_cases args mac bound interfaces chance tap_name port e =
    elim (launch_sockets_cases args mac bound interfaces chance tap_name port e) [
      | inl (b4, l) ↦ rw l (
          inr (
            refl,
            refl,
            λ p h listens.
                let k = main-udp_port args (some mac) interfaces chance tap_name port p e h in
                cc (b4, k, listens.0),
          ))
      | inr (inl (b6, l)) ↦ rw l (
          inr (
            refl,
            refl,
            λ p h listens.
                let k = main-udp_port args (some mac) interfaces chance tap_name port p e h in
                cc (b6, k, listens.1),
          ))
      | inr (inr (listens, l)) ↦
          elim (launch_threads-free_ip args mac interfaces chance tap_name port e) [
            | inl (h, s) ↦ rw l (rw s (inr (refl, refl, λ p k. absurd (cc (h, k)))))
            | inr (ip, h, s) ↦ inl (
              new_program chance tap_name port mac ip,
              rw (new_program-tap_name chance tap_name port mac ip, l, s) refl,
              h,
              rw (new_program-udp_port chance tap_name port mac ip) listens,
            )
          ]
    ]

launch-none :
    (args : List Bytes) (opened : Option Bytes) (bound : Address → Bool)
    (interfaces : Option (List Interface)) (chance : Chance)
    → (parse_args args k_tap_name k_udp_port ≡ none) ⊎ (opened ≡ none)
    → (main args opened interfaces chance ≡ none)
      × ((launch args opened bound interfaces chance).1 ≡ none)
      × (starts_threads (launch args opened bound interfaces chance).0 ≡ false)
unfolding launch launch_objects main starts_threads
launch-none args opened bound interfaces chance (inl e) = (ground arith, ground arith, ground arith)
launch-none args opened bound interfaces chance (inr o) =
    elim (Option-cases (parse_args args k_tap_name k_udp_port)) [
      | inl e ↦ (ground arith, ground arith, ground arith)
      | inr (a, e) ↦ (ground arith, ground arith, ground arith)
    ]

launch_cases :
    (args : List Bytes) (opened : Option Bytes) (bound : Address → Bool)
    (interfaces : Option (List Interface)) (chance : Chance)
    → Runs bound (launch args opened bound interfaces chance) (main args opened interfaces chance)
      ⊎ Ends bound (launch args opened bound interfaces chance) (main args opened interfaces chance)
launch_cases args none bound interfaces chance =
    let (m, l, s) = launch-none args none bound interfaces chance (inr refl) in
    inr (l, s, λ p h. absurd (cc (m, h)))
launch_cases args (some mac) bound interfaces chance =
    elim (Option-cases (parse_args args k_tap_name k_udp_port)) [
      | inl e ↦
          let (m, l, s) = launch-none args (some mac) bound interfaces chance (inl e) in
          inr (l, s, λ p h. absurd (cc (m, h)))
      | inr ((tap_name, port), e) ↦
          launch_tap_cases args mac bound interfaces chance tap_name port e
    ]

Runs-unique :
    (bound : Address → Bool) (l : List StartCall × Option Program) (m : Option Program)
    (p : Program)
    → Runs bound l m
    → (l ≡ (all_calls p, some p)) ↔ (m ≡ some p) × Listens bound p.udp_port
Runs-unique bound l m p (q, runs, h, listens) = (
  λ e.
      let same : some q ≡ some p = sym (ap (λ x. x.1) runs) ∙ ap (λ x. x.1) e in
      let back : q ≡ p = cc same in
      (h ∙ same, subst (λ (x : Program). Listens bound x.udp_port) back listens),
  λ (k, listening).
      let same : q ≡ p = cc (h, k) in runs ∙ ap (λ (x : Program). (all_calls x, some x)) same,
)

-- main reaches the end with its node, after calls to InitializeSSL, peerlist_init, tap_open with the
-- node's device, CreateUdpSocket for both local addresses with its port, and the start of
-- the send, the receive and the packet handling thread and the run of the link setup thread, in this
-- order, exactly if its other steps give that node and both sockets are bound. Any thread starts exactly if there is such a node.
pub launch-main :
    (args : List Bytes) (opened : Option Bytes) (bound : Address → Bool)
    (interfaces : Option (List Interface)) (chance : Chance) (p : Program)
    → ((launch args opened bound interfaces chance ≡ (all_calls p, some p))
        ↔ (main args opened interfaces chance ≡ some p) × Listens bound p.udp_port)
      × ((starts_threads (launch args opened bound interfaces chance).0 ≡ true) ↔ (
          (q : Program) × (main args opened interfaces chance ≡ some q) × Listens bound q.udp_port))
unfolding starts_threads
launch-main args opened bound interfaces chance p =
    elim (launch_cases args opened bound interfaces chance) [
      | inl r ↦
          let (q, runs, m, listens) = r in
          (Runs-unique bound _ _ p r, (λ h. (q, m, listens), λ h. rw runs refl))
      | inr (ends, s, never) ↦ (
        (λ e. absurd (cc (ap (λ x. x.1) e, ends)), λ (h, k). absurd (never p h k)),
        (λ h. absurd (cc (h, s)), λ (x, h, k). absurd (never x h k)),
      )
    ]
