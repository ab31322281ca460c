-- ===== src/Store/Tables/Open.antt =====
-- The open session of sessions.go's table, with the calls of controller.go that open and close it.
use wallbox_homeautomation_g.Base.{
  Bool, Bool-absurd, Bool-cases, List, Option, Option-cases, String, [], arith, false, inl, inr,
  none, refl, some, subst, sym, true, ◌++◌, ◌∙◌, ◌∷◌, ◌≡◌,
}
use wallbox_homeautomation_g.Base.Int.{eq_ℤ, eq_ℤ_self, int_laws, pos, ℤ, ◌+ℤ◌, ◌<ℤ◌}
use wallbox_homeautomation_g.Go.Time.{Time}
use wallbox_homeautomation_g.Store.{Session}
use wallbox_homeautomation_g.Store.Tables.{ended, is_open, newest_open, update_where}

module _ {ℓ} {W : Type ℓ} where
  -- Every open session has this id.
  abbrev pub OpenAre : ℤ → List (Session W) → Type 0
  OpenAre id [] = Unit
  OpenAre id (s ∷ ss) = (is_open s ≡ true → s.id ≡ id) × OpenAre id ss

  -- Ids are positive, and below the next one.
  abbrev pub AllBelow : ℤ → List (Session W) → Type 0
  AllBelow next [] = Unit
  AllBelow next (s ∷ ss) = (pos 0 <ℤ s.id) × (s.id <ℤ next) × AllBelow next ss

  abbrev pub AllClosed : List (Session W) → Type 0
  AllClosed [] = Unit {0}
  AllClosed (s ∷ ss) = (is_open s ≡ false) × AllClosed ss

  pub newest_open-none : (ss : List (Session W)) → AllClosed ss → newest_open ss ≡ none
  unfolding newest_open
  newest_open-none [] h = refl
  newest_open-none (s ∷ ss) h = ground (arith, newest_open-none ss h.1)

  -- the session found is open, so it has the id of the open ones
  pub newest_open-OpenAre :
      (id : ℤ) (ss : List (Session W)) (o : Session W)
      → OpenAre id ss
      → newest_open ss ≡ some o
      → o.id ≡ id
  unfolding newest_open
  newest_open-OpenAre id [] o h e = absurd (cc)
  newest_open-OpenAre id (s ∷ ss) o h e = elim (Option-cases (newest_open ss)) [
    | inl nothing ↦ ground arith
    | inr (x, found) ↦ ground (arith, newest_open-OpenAre id ss x h.1 found)
  ]

  pub update_where-AllClosed :
      (id : ℤ) (at : Time) (reason : String) (soc : Option ℤ) (energy average peak : W)
      (ss : List (Session W))
      → OpenAre id ss
      → AllClosed (update_where (λ s. eq_ℤ s.id id) (ended at reason soc energy average peak) ss).0
  unfolding update_where is_open ended
  update_where-AllClosed id at reason soc energy average peak [] h = tt
  update_where-AllClosed id at reason soc energy average peak (s ∷ ss) h =
      let rest = update_where-AllClosed id at reason soc energy average peak ss h.1 in
      elim (Bool-cases (eq_ℤ s.id id)) [
        | inl same ↦ rw same (refl, rest)
        | inr other ↦ rw other (ground (arith, eq_ℤ_self id), rest)
      ]

  pub update_where-AllBelow :
      (next : ℤ) (p : Session W → Bool) (g : Session W → Session W) (ss : List (Session W))
      → ((s : Session W) → (g s).id ≡ s.id)
      → AllBelow next ss
      → AllBelow next (update_where p g ss).0
  unfolding update_where
  update_where-AllBelow next p g [] same h = tt
  update_where-AllBelow next p g (s ∷ ss) same h =
      let rest = update_where-AllBelow next p g ss same h.2 in
      elim (Bool-cases (p s)) [
        | inl met ↦ rw met (
          subst (λ i. pos 0 <ℤ i) (sym (same s)) h.0,
          subst (λ i. i <ℤ next) (sym (same s)) h.1,
          rest,
        )
        | inr unmet ↦ rw unmet (h.0, h.1, rest)
      ]

  pub update_where-OpenAre :
      (id : ℤ) (p : Session W → Bool) (g : Session W → Session W) (ss : List (Session W))
      → ((s : Session W) → (g s).id ≡ s.id)
      → ((s : Session W) → is_open (g s) ≡ true → is_open s ≡ true)
      → OpenAre id ss
      → OpenAre id (update_where p g ss).0
  unfolding update_where
  update_where-OpenAre id p g [] same opens h = tt
  update_where-OpenAre id p g (s ∷ ss) same opens h =
      let rest = update_where-OpenAre id p g ss same opens h.1 in
      elim (Bool-cases (p s)) [
        | inl met ↦ rw met ((λ o. same s ∙ h.0 (opens s o)), rest)
        | inr unmet ↦ rw unmet (h.0, rest)
      ]

  pub AllClosed-OpenAre : (id : ℤ) (ss : List (Session W)) → AllClosed ss → OpenAre id ss
  AllClosed-OpenAre id [] h = tt
  AllClosed-OpenAre id (s ∷ ss) h = ((λ o. Bool-absurd o h.0), AllClosed-OpenAre id ss h.1)

  -- no row has the id 0
  pub OpenAre-AllClosed :
      (next : ℤ) (ss : List (Session W)) → AllBelow next ss → OpenAre (pos 0) ss → AllClosed ss
  OpenAre-AllClosed next [] b h = tt
  OpenAre-AllClosed next (s ∷ ss) b h = (ground arith, OpenAre-AllClosed next ss b.2 h.1)

  pub append-OpenAre :
      (ss : List (Session W)) (s : Session W) → AllClosed ss → OpenAre s.id (ss ++ (s ∷ []))
  append-OpenAre [] s h = ((λ o. refl), tt)
  append-OpenAre (x ∷ ss) s h = ((λ o. Bool-absurd o h.0), append-OpenAre ss s h.1)

  pub append-AllBelow :
      (next : ℤ) (ss : List (Session W)) (s : Session W)
      → AllBelow next ss
      → pos 0 <ℤ s.id
      → s.id ≡ next
      → AllBelow (next +ℤ pos 1) (ss ++ (s ∷ []))
  append-AllBelow next [] s b p e = (p, rw e (omega int_laws), tt)
  append-AllBelow next (x ∷ ss) s b p e =
      (b.0, omega (int_laws, b.1), append-AllBelow next ss s b.2 p e)

  pub newest_open-AllClosed : (ss : List (Session W)) → newest_open ss ≡ none → AllClosed ss
  unfolding newest_open
  newest_open-AllClosed [] e = tt
  newest_open-AllClosed (s ∷ ss) e = elim (Option-cases (newest_open ss)) [
    | inl nothing ↦ (ground arith, newest_open-AllClosed ss nothing)
    | inr (x, found) ↦ ground arith
  ]
