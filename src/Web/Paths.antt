-- ===== src/Web/Paths.antt =====
-- Which file a request can reach, and whose requests are served.
use teslausb_neo.Base.{
  String, ◌≡◌, ◌≢◌, ◌⊎◌, inl, inr, false, none, some, [], ◌∷◌, ◌==◌, starts_with, arith, refl,
  eq_iff, Bool-cases, Option-cases, eq_of_test, true, sym, ap, ◌∙◌,
}
use teslausb_neo.Host.{remove, History, Host}
use teslausb_neo.Host.Io.{M}
use teslausb_neo.Host.Fallible.{Result, ok, err}
use teslausb_neo.Web.{
  WebConfig, Response, unauthorized, handler, validate_path, path_under, remove_path, with_path,
  handle_delete_file,
}

-- What package path/filepath says of its functions, for a directory that Abs gave: Clean never
-- returns an empty text; Join with "." gives the directory; and Dir and Base take apart what Join
-- made of the directory and one element, which has no separator and is not "", "." or "..".
pub record Filepath (H : Host) : Type 0 where
  pub clean_text : (name : String) → H.clean name ≢ ""
  pub join_dot : (base root : String) → H.abs base ≡ some root → H.join (root ∷ "." ∷ []) ≡ root
  pub dir_join :
      (base root e : String)
      → H.abs base ≡ some root
      → H.has_part e "/" ≡ false
      → e ≢ ""
      → e ≢ "."
      → e ≢ ".."
      → H.dir (H.join (root ∷ e ∷ [])) ≡ root
  pub base_join :
      (base root e : String)
      → H.abs base ≡ some root
      → H.has_part e "/" ≡ false
      → e ≢ ""
      → e ≢ "."
      → e ≢ ".."
      → H.base (H.join (root ∷ e ∷ [])) ≡ e

-- The path is the base directory itself, where the name is cleaned to a dot, or it lies directly
-- in that directory, and its last element is the cleaned name.
pub data Within (H : Host) (base_dir name path : String) : Type 0 where
  itself :
      (root : String)
      → H.abs base_dir ≡ some root
      → H.clean name ≡ "."
      → path ≡ root
      → Within H base_dir name path
  entry :
      (root : String)
      → H.abs base_dir ≡ some root
      → H.dir path ≡ root
      → H.base path ≡ H.clean name
      → Within H base_dir name path

true-not-false : true ≢ false
true-not-false h = ground (arith, h)

module _ (H : Host) (filepath : Filepath H) where
  joined-Within :
      (base_dir root name : String)
      → H.abs base_dir ≡ some root
      → H.has_part (H.clean name) "/" ≡ false
      → H.clean name ≢ ".."
      → Within H base_dir name (H.join (root ∷ H.clean name ∷ []))
  joined-Within base_dir root name a flat up = elim (Bool-cases (H.clean name == ".")) [
    | inl b ↦
        let e : H.clean name ≡ "." = eq_of_test (H.clean name) "." b in
        itself root a e (rw e (filepath.join_dot base_dir root a))
    | inr b ↦
        let e : H.clean name ≢ "." =
          λ d. true-not-false (sym ((eq_iff (H.clean name) ".").1 d) ∙ b) in
        entry root a
          (filepath.dir_join base_dir root (H.clean name) a flat (filepath.clean_text name) e up)
          (filepath.base_join base_dir root (H.clean name) a flat (filepath.clean_text name) e up)
  ]

  validate_path-Within :
      (base_dir name path : String)
      → validate_path H base_dir name ≡ ok path
      → Within H base_dir name path
  unfolding validate_path path_under
  validate_path-Within base_dir name path h = elim (Option-cases (H.abs base_dir)) [
    | inl e ↦ absurd (ground (arith, h, e))
    | inr (root, e) ↦
        let p : path ≡ H.join (root ∷ H.clean name ∷ []) = ground (arith, h, e) in
        let flat : H.has_part (H.clean name) "/" ≡ false = ground (arith, h, e) in
        let low : starts_with (H.clean name) ".." ≡ false = ground (arith, h, e) in
        rw p (joined-Within base_dir root name e flat (not_up (H.clean name) low))
  ]
    where
      not_up : (s : String) → starts_with s ".." ≡ false → s ≢ ".."
      not_up s l d = absurd (true-not-false (sym (ap (λ x. starts_with x "..") d) ∙ l))

  -- A handler that works on the path of a request gets one within the base directory, or answers
  -- without any call.
  pub with_path-Within :
      (s : WebConfig) (name : String) (next : String → M Response) (t : History)
      → ((with_path H s name next t).1 ≡ t)
        ⊎ ((path : String) × Within H s.archive_dir name path
            × (with_path H s name next t ≡ next path t))
  unfolding with_path
  with_path-Within s name next t = go (validate_path H s.archive_dir name) refl
    where
      go :
          (r : Result String)
          → validate_path H s.archive_dir name ≡ r
          → ((with_path H s name next t).1 ≡ t)
            ⊎ ((path : String) × Within H s.archive_dir name path
                × (with_path H s name next t ≡ next path t))
      go (err m) e = inl (ground (arith, e))
      go (ok path) e = elim (Bool-cases (name == "")) [
        | inl b ↦ inl (ground (arith, b))
        | inr b ↦ inr (path, validate_path-Within s.archive_dir name path e, ground (arith, b, e))
      ]

  -- Where filepath does what it says: a request to delete makes no call, or it removes exactly one
  -- path, which lies directly in the archive directory and ends with the cleaned name, or is that
  -- directory itself, and then the name is cleaned to a dot.
  pub handle_delete_file-Within :
      (s : WebConfig) (name : String) (t : History)
      → let t' = (handle_delete_file H s name t).1 in
        (t' ≡ t) ⊎ ((path : String) × Within H s.archive_dir name path × (t' ≡ remove path ∷ t))
  unfolding handle_delete_file remove_path
  handle_delete_file-Within s name t = elim (with_path-Within s name (remove_path H) t) [
    | inl e ↦ inl e
    | inr (path, within, e) ↦ inr (path, within, ground (arith, e))
  ]

-- Where user and password are configured, a request reaches its handler just with both of them,
-- and is refused without any call otherwise.
pub handler-cases :
    (s : WebConfig) (user pass : String) (next : M Response) (t : History)
    → s.auth_user ≢ ""
    → s.auth_pass ≢ ""
    → ((user ≡ s.auth_user) × (pass ≡ s.auth_pass) × (handler s (some (user, pass)) next t ≡ next t)
        ⊎ ((user ≢ s.auth_user) ⊎ (pass ≢ s.auth_pass))
          × (handler s (some (user, pass)) next t ≡ (unauthorized, t)))
      × (handler s none next t ≡ (unauthorized, t))
unfolding handler
handler-cases s user pass next t u p = ground (
  arith,
  eq_iff s.auth_user "",
  eq_iff s.auth_pass "",
  eq_iff user s.auth_user,
  eq_iff pass s.auth_pass,
)
