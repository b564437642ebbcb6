-- ===== src/Gadget/Binding.antt =====
-- What a successful Activate leaves in the gadget's UDC file.
use teslausb_neo.Base.{
  String, ◌≡◌, ◌≢◌, ◌⊎◌, inl, inr, none, ◌∷◌, ◌==◌, eq_iff, arith, true, Bool-cases, ◌∙◌,
}
use teslausb_neo.Host.{read_file, write_file, History, Host}
use teslausb_neo.Host.Fallible.{ok, E, wrap, ◌>>=◌, bind-ok, wrapped-ok}
use teslausb_neo.Gadget.Tree.{Gadget, gadget_path, udc_path, clear_udc}
use teslausb_neo.Gadget.Bind.{find_udc, activate, bind_udc, write_udc, current_udc, link_function}

module _ (H : Host) where
  -- The last call of a history that binds the controller: the write of its name, without a fault,
  -- or a read that shows it bound already.
  pub data Bound (gp udc : String) : History → Type 0 where
    written :
        {u : History}
        → (H.answer u (write_file (udc_path H gp) udc)).fault ≡ none
        → Bound gp udc (write_file (udc_path H gp) udc ∷ u)
    found :
        {u : History}
        → (H.answer u (read_file (udc_path H gp))).fault ≡ none
        → H.trim_space (H.answer u (read_file (udc_path H gp))).text ≡ udc
        → Bound gp udc (read_file (udc_path H gp) ∷ u)

  write_udc-ok :
      (gp udc : String) (g g' : Gadget) (t : History)
      → (write_udc H gp udc g t).0 ≡ ok g'
      → (g' ≡ record g { active = true })
        × ((write_udc H gp udc g t).1 ≡ write_file (udc_path H gp) udc ∷ t)
        × ((H.answer t (write_file (udc_path H gp) udc)).fault ≡ none)
  unfolding write_udc
  write_udc-ok gp udc g g' t h = ground arith

  bind_udc-cases :
      (gp udc cur : String) (g g' : Gadget) (t : History)
      → (bind_udc H gp udc cur g t).0 ≡ ok g'
      → (g' ≡ record g { active = true })
        × ((cur ≢ "") × (cur ≡ udc) × ((bind_udc H gp udc cur g t).1 ≡ t)
            ⊎ ((u : History) × ((bind_udc H gp udc cur g t).1 ≡ write_file (udc_path H gp) udc ∷ u)
                × ((H.answer u (write_file (udc_path H gp) udc)).fault ≡ none)))
  unfolding bind_udc
  bind_udc-cases gp udc cur g g' t h = elim (Bool-cases (cur == "")) [
    | inl e ↦
        let h' : (write_udc H gp udc g t).0 ≡ ok g' = ground (arith, h, e) in
        let (same, calls, fine) = write_udc-ok gp udc g g' t h' in
        (same, inr (t, ground (arith, e, calls), fine))
    | inr e ↦ elim (Bool-cases (cur == udc)) [
      | inl d ↦ ground (arith, h, e, d, eq_iff cur "", eq_iff cur udc)
      | inr d ↦
          let u = (clear_udc H gp t).1 in
          let h' : (write_udc H gp udc g u).0 ≡ ok g' = ground (arith, h, e, d) in
          let (same, calls, fine) = write_udc-ok gp udc g g' u h' in
          (same, inr (u, ground (arith, e, d, calls), fine))
    ]
  ]

  read_found :
      (gp udc cur : String) (t : History)
      → (current_udc H gp t).0 ≡ ok cur
      → cur ≢ ""
      → cur ≡ udc
      → Bound gp udc (current_udc H gp t).1
  unfolding current_udc
  read_found gp udc cur t r n e = grind (arith, found)

  -- An Activate that succeeds marks the gadget as active and nothing else of it, and its last call
  -- wrote the controller that findUDC chose to the UDC file, or read it there.
  pub activate-Bound :
      (g g' : Gadget) (t : History)
      → (activate H g t).0 ≡ ok g'
      → (g' ≡ record g { active = true })
        × ((udc : String) × ((u : History) × ((find_udc H u).0 ≡ ok udc))
            × Bound (gadget_path H g) udc (activate H g t).1)
  unfolding activate
  activate-Bound g g' t h =
      let gp = gadget_path H g in
      let rest : String → String → E Gadget = λ udc cur. bind_udc H gp udc cur g in
      let read_back : String → E Gadget = λ udc. current_udc H gp >>= rest udc in
      let (_, _, h1, c1) =
        bind-ok (link_function H gp) (λ _. wrap "find UDC" (find_udc H) >>= read_back) t g' h in
      let t1 = (link_function H gp t).1 in
      let (udc, f, h2, c2) = bind-ok (wrap "find UDC" (find_udc H)) read_back t1 g' h1 in
      let t2 = (find_udc H t1).1 in
      let (cur, r, h3, c3) = bind-ok (current_udc H gp) (rest udc) t2 g' h2 in
      let t3 = (current_udc H gp t2).1 in
      let (same, cases) = bind_udc-cases gp udc cur g g' t3 h3 in
      let calls : (activate H g t).1 ≡ (bind_udc H gp udc cur g t3).1 = c1 ∙ c2 ∙ c3 in
      (
        same,
        (
          udc,
          (t1, wrapped-ok "find UDC" (find_udc H t1).0 udc f),
          rw calls (elim cases [
            | inl (n, e, c) ↦ rw c (read_found gp udc cur t2 r n e)
            | inr (u, c, fine) ↦ rw c (written fine)
          ]),
        ),
      )
