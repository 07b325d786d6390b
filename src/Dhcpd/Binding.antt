-- ===== src/Dhcpd/Binding.antt =====
-- When Serve of dhcpd/server.go ends the process before its loop.
use netbootd.Prelude.{
  ◌≡◌, ◌≢◌, ◌↔◌, ◌⊎◌, refl, inl, inr, arith, true, false, none, [], Bytes, str_eq, str_eq_iff,
  Bool-cases, Option-cases, Result, ok, err, ◌>>=◌, with_error, if◌then◌else◌,
}
use netbootd.GoStd.Ip.{is_multicast}
use netbootd.Dhcpd.Server.{Server, Sockets, with_interface, bind, on_interface}

-- A system call of Serve fails: the socket cannot be bound, the interface is not found or, without one,
-- the flag cannot be set, or a multicast group cannot be joined.
abbrev pub CannotBind : Sockets → Server → Type 0
CannotBind sockets server =
    (sockets.listen server.zone server.address ≢ none)
    ⊎ ((server.zone ≡ []) × (sockets.set_control_message ≢ none))
    ⊎ ((server.zone ≢ []) × ((e : Bytes) × (sockets.interface_by_name server.zone ≡ err e)))
    ⊎ ((is_multicast server.address ≡ true) × (sockets.join_group server.address ≢ none))

Result-cases {ℓ} :
    {A : Type ℓ} (r : Result A) → ((e : Bytes) × (r ≡ err e)) ⊎ ((a : A) × (r ≡ ok a))
Result-cases (ok a) = inr (a, refl)
Result-cases (err e) = inl (e, refl)

module _ (sockets : Sockets) (server : Server) where
  -- What is left of Serve once the interface is known.
  abbrev join : Server → Result Server
  join s = if is_multicast s.address then with_error (sockets.join_group s.address) s else ok s

  join_fails :
      (s : Server) (e : Bytes)
      → join s ≡ err e
      → (is_multicast s.address ≡ true) × (sockets.join_group s.address ≢ none)
  join_fails s e h = elim (Bool-cases (is_multicast s.address)) [
    | inr single ↦ absurd (cc (rw single at h))
    | inl multi ↦ (multi, λ joined. cc (rw (multi, joined) at h))
  ]

  with_interface_fails :
      (e : Bytes) → (with_interface sockets server >>= join) ≡ err e → CannotBind sockets server
  unfolding with_interface
  with_interface_fails e h = elim (Bool-cases (str_eq server.zone [])) [
    | inl none_given ↦ elim (Option-cases sockets.set_control_message) [
      | inr (failure, set) ↦ inr (inl ((str_eq_iff server.zone []).0 none_given, λ n. cc (set, n)))
      | inl set ↦ inr (inr (inr (join_fails server e (rw (none_given, set) at h))))
    ]
    | inr given ↦ elim (Result-cases (sockets.interface_by_name server.zone)) [
      | inl missing ↦ inr (inr (inl (λ n. ground (arith, str_eq_iff server.zone []), missing)))
      | inr (ifi, found) ↦
          inr (inr (inr (join_fails (on_interface server ifi) e (rw (given, found) at h))))
    ]
  ]

  bind_fails : (e : Bytes) → bind sockets server ≡ err e → CannotBind sockets server
  unfolding bind
  bind_fails e h = elim (Option-cases (sockets.listen server.zone server.address)) [
    | inr (failure, bound) ↦ inl (λ n. cc (bound, n))
    | inl bound ↦ with_interface_fails e (rw bound at h)
  ]

  join_of_fails :
      (s : Server)
      → is_multicast s.address ≡ true
      → sockets.join_group s.address ≢ none
      → (e : Bytes) × (join s ≡ err e)
  join_of_fails s multi fails = elim (Option-cases (sockets.join_group s.address)) [
    | inl joined ↦ absurd (fails joined)
    | inr (e, failed) ↦ (e, rw (multi, failed) refl)
  ]

  -- A failure of the interface or of the group, once the socket is bound.
  with_interface_of_fails :
      ((server.zone ≡ []) × (sockets.set_control_message ≢ none))
        ⊎ ((server.zone ≢ []) × ((e : Bytes) × (sockets.interface_by_name server.zone ≡ err e)))
        ⊎ ((is_multicast server.address ≡ true) × (sockets.join_group server.address ≢ none))
      → (e : Bytes) × ((with_interface sockets server >>= join) ≡ err e)
  unfolding with_interface join_of_fails
  with_interface_of_fails (inl (zone, fails)) = elim (Option-cases sockets.set_control_message) [
    | inl set ↦ absurd (fails set)
    | inr (e, failed) ↦ (e, rw ((str_eq_iff server.zone []).1 zone, failed) refl)
  ]
  with_interface_of_fails (inr (inl (zone, (e, missing)))) =
      let given : str_eq server.zone [] ≡ false = ground (arith, str_eq_iff server.zone []) in
      (e, rw (given, missing) refl)
  with_interface_of_fails (inr (inr (multi, fails))) = elim (Bool-cases (str_eq server.zone [])) [
    | inl zone ↦ elim (Option-cases sockets.set_control_message) [
      | inr (e, failed) ↦ (e, rw (zone, failed) refl)
      | inl set ↦ let (e, joins) = join_of_fails server multi fails in (e, rw (zone, set) joins)
    ]
    | inr given ↦ elim (Result-cases (sockets.interface_by_name server.zone)) [
      | inl (e, missing) ↦ (e, rw (given, missing) refl)
      | inr (ifi, found) ↦
          let (e, joins) = join_of_fails (on_interface server ifi) multi fails in
          (e, rw (given, found) joins)
    ]
  ]

  bind_of_CannotBind : CannotBind sockets server → (e : Bytes) × (bind sockets server ≡ err e)
  unfolding bind
  bind_of_CannotBind cause = elim (Option-cases (sockets.listen server.zone server.address)) [
    | inr (failure, bound) ↦ (failure, rw bound refl)
    | inl bound ↦ elim cause [
      | inl fails ↦ absurd (fails bound)
      | inr later ↦ let (e, ends) = with_interface_of_fails later in (e, rw bound ends)
    ]
  ]

  -- Serve ends the process before its loop exactly when one of its system calls fails.
  pub bind_err_iff : ((e : Bytes) × (bind sockets server ≡ err e)) ↔ CannotBind sockets server
  bind_err_iff = ((λ (e, h). bind_fails e h), bind_of_CannotBind)
