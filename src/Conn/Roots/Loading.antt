-- ===== src/Conn/Roots/Loading.antt =====
-- The roots of the first connector are those of all.
use condukt.Prelude.{
  ◌≡◌, refl, sym, ap, ◌∙◌, Bool, true, false, List, [], ◌∷◌, Option, none, some, Str, Result, ok,
  err, if◌then◌else◌, All, inl, inr, Any, ◌⊎◌, ◌↔◌, subst, arith,
}
use condukt.Conn.Outcome.{Outcome}
use condukt.Conn.Roots.{
  Item, x509_certificate, other, roots_path, Store, ClientConfig, certificates, out_of,
  load_system_roots, add_all, client_config, build_tls_connector,
}

-- the connectors of successive connections, each with the files as they are then
abbrev pub connectors :
    {D : Type 0} → List (Store D) → Option (ClientConfig D) → List (Outcome (ClientConfig D))
connectors [] cell = []
connectors (s ∷ rest) cell =
    let (cfg, after) = build_tls_connector s cell in cfg ∷ connectors rest after

module _ {D : Type 0} where
  -- a certificate among the items, with no failure before it
  pub data Occurs (der : D) : List (Result Str (Item D)) → Type 0 where
    here : {rest : List (Result Str (Item D))} → Occurs der (ok (x509_certificate der) ∷ rest)
    later :
        {item : Item D} {rest : List (Result Str (Item D))}
        → Occurs der rest
        → Occurs der (ok item ∷ rest)

  abbrev pub OccursIn : D → Option (List (Result Str (Item D))) → Type 0
  OccursIn der none = ⊥
  OccursIn der (some items) = Occurs der items

  Occurs-certificates :
      (der : D) (items : List (Result Str (Item D)))
      → Any (λ d. d ≡ der) (certificates items) ↔ Occurs der items
  Occurs-certificates der items = (forth items, back items)
    where
      forth :
          (items : List (Result Str (Item D)))
          → Any (λ d. d ≡ der) (certificates items)
          → Occurs der items
      forth [] h = absurd h
      forth (err e ∷ rest) h = absurd h
      forth (ok (x509_certificate d) ∷ rest) (inl e) =
          subst (λ x. Occurs der (ok (x509_certificate x) ∷ rest)) (sym e) here
      forth (ok (x509_certificate d) ∷ rest) (inr h) = later (forth rest h)
      forth (ok other ∷ rest) h = later (forth rest h)

      back :
          (items : List (Result Str (Item D)))
          → Occurs der items
          → Any (λ d. d ≡ der) (certificates items)
      back [] h = elim h [ ]
      back (err e ∷ rest) h = elim h [ ]
      back (ok (x509_certificate d) ∷ rest) here = inl refl
      back (ok (x509_certificate d) ∷ rest) (later h) = inr (back rest h)
      back (ok other ∷ rest) (later h) = back rest h

  Occurs-out_of :
      (der : D) (found : Option (List (Result Str (Item D))))
      → Any (λ d. d ≡ der) (out_of found) ↔ OccursIn der found
  Occurs-out_of der none = (λ h. h, λ h. h)
  Occurs-out_of der (some items) = Occurs-certificates der items

  Any-add_all :
      (accepts : D → Bool) (der : D) (ds : List D)
      → Any (λ d. d ≡ der) (add_all accepts ds) ↔ ((accepts der ≡ true) × Any (λ d. d ≡ der) ds)
  Any-add_all accepts der [] = (λ h. absurd h, λ h. absurd h.1)
  Any-add_all accepts der (d ∷ ds) = by_answer (accepts d) refl (Any-add_all accepts der ds)
    where
      by_answer :
          (b : Bool)
          → accepts d ≡ b
          → Any (λ x. x ≡ der) (add_all accepts ds) ↔ ((accepts der ≡ true) × Any (λ x. x ≡ der) ds)
          → Any (λ x. x ≡ der) (if b then d ∷ add_all accepts ds else add_all accepts ds)
            ↔ ((accepts der ≡ true) × ((d ≡ der) ⊎ Any (λ x. x ≡ der) ds))
      by_answer true e ih = (
        λ h. elim h [
          | inl q ↦ (ap accepts (sym q) ∙ e, inl q)
          | inr m ↦ ((ih.0 m).0, inr (ih.0 m).1)
        ],
        λ h. elim h.1 [ inl q ↦ inl q | inr m ↦ inr (ih.1 (h.0, m)) ],
      )
      by_answer false e ih = (
        λ h. ((ih.0 h).0, inr (ih.0 h).1),
        λ h. elim h.1 [
          | inl q ↦ absurd (ground (arith, sym e ∙ (ap accepts q ∙ h.0)))
          | inr m ↦ ih.1 (h.0, m)
        ],
      )

  connectors_kept :
      (cfg : ClientConfig D) (later : List (Store D))
      → All (λ o. o ≡ ok cfg) (connectors later (some cfg))
  unfolding build_tls_connector
  connectors_kept cfg [] = tt
  connectors_kept cfg (s ∷ rest) = (refl, connectors_kept cfg rest)

  -- Whatever the files hold later, the connectors of all connections have one configuration, that of
  -- the first; its roots are exactly the certificates that the store takes among those that stand in
  -- the system's file in front of the first item that cannot be read, and none if the file cannot be
  -- read.
  pub connectors_share_roots :
      (s : Store D) (rest : List (Store D))
      → All (λ o. o ≡ ok (client_config s)) (connectors (s ∷ rest) none)
        × ((der : D)
            → Any (λ d. d ≡ der) (client_config s).roots
              ↔ ((s.accepts der ≡ true) × OccursIn der (s.read roots_path)))
  unfolding build_tls_connector client_config load_system_roots
  connectors_share_roots s rest = (
    (refl, connectors_kept (client_config s) rest),
    λ der.
        let added = Any-add_all s.accepts der (load_system_roots s) in
        let found = Occurs-out_of der (s.read roots_path) in
        (λ h. ((added.0 h).0, found.0 (added.0 h).1), λ h. added.1 (h.0, found.1 h.1)),
  )
