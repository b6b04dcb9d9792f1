-- ===== src/Web/Removal/Each.antt =====
-- The loop of `Cleanup` of examples/web/sessions.go over the expired sessions.
use pgislet.Base.{
  ◌⊎◌, suc, ◌+◌, ◌≤◌, String, ◌≡◌, refl, ◌∙◌, inl, inr, Option, none, some, [], ◌∷◌, length, arith,
  ap,
}
use pgislet.Base.Dict.{Dict, lookup}
use pgislet.Errors.{Err, Errs, nil, present}
use pgislet.Engine.Types.{Db}
use pgislet.Engine.Registry.{insert_cases, at_same, at_other, key_cases}
use pgislet.Web.Sessions.{Session, Server, store}
use pgislet.Web.Sessions.Capacity.{length-insert}
use pgislet.Web.Sessions.Entries.{Entries, Within}
use pgislet.Web.Removal.{World, Removal, remove, remove_each, restored}
use pgislet.Web.Removal.Gone.{Answers, remove-gone}
use pgislet.Web.Removal.Absent.{remove-absent}

abbrev pub NoIslets : Dict Session → Db → Type 0
NoIslets [] db = Unit
NoIslets ((key, item) ∷ rest) db = (lookup item.id db.islets ≡ none) × NoIslets rest db

-- Each of these sessions is still known to the server, or its islet is gone.
abbrev pub Accounted : Dict Session → Dict Session → Db → Type 0
Accounted [] after db = Unit
Accounted ((key, item) ∷ rest) after db =
    ((lookup key after ≡ some item) ⊎ (lookup item.id db.islets ≡ none)) × Accounted rest after db

restored-length :
    (o : Option Err) (token : String) (item : Session) (s : Server)
    → length (restored o token item s).sessions ≤ suc (length s.sessions)
unfolding store
restored-length none token item s = ground arith
restored-length (some e) token item s = length-insert token item s.sessions

restored-keeps :
    (o : Option Err) (token : String) (item : Session) (s : Server) (old : Dict Session)
    (k : String) (i : Session)
    → lookup token old ≡ some item
    → lookup k old ≡ some i
    → lookup k s.sessions ≡ some i
    → lookup k (restored o token item s).sessions ≡ some i
unfolding store
restored-keeps none token item s old k i t l here = here
restored-keeps (some e) token item s old k i t l here = elim (key_cases token k) [
  | inl same ↦ at_same token k item s.sessions same ∙ cc (t, l, same)
  | inr other ↦ at_other token k item s.sessions other ∙ here
]

restored-Within :
    (o : Option Err) (token : String) (item : Session) (s : Server) (old : Dict Session)
    → lookup token old ≡ some item
    → Within s.sessions old
    → Within (restored o token item s).sessions old
unfolding store
restored-Within none token item s old t within k i h = within k i h
restored-Within (some e) token item s old t within k i h =
    elim (insert_cases token k item i s.sessions h) [
      | inl (same, one) ↦ cc (t, same, one)
      | inr (other, l) ↦ within k i l
    ]

present-nil : (o : Option Err) (es : Errs) → present o es ≡ nil → (o ≡ none) × (es ≡ nil)
present-nil none es h = (refl, h)
present-nil (some e) es h = cc

module _ (calls : String → Removal) where
  pub each-length :
      (m : Dict Session) (w : World)
      → length (remove_each calls m w).1.server.sessions ≤ length w.server.sessions + length m
  unfolding remove_each
  each-length [] w = omega arith
  each-length ((token, item) ∷ rest) w =
      let (o, db) = remove (calls token) item.id w.db in
      let step = restored-length o token item w.server in
      let more = each-length rest (record { server = restored o token item w.server; db = db }) in
      omega arith

  pub each-keeps :
      (old m : Dict Session) (w : World) (k : String) (i : Session)
      → Entries m old
      → lookup k old ≡ some i
      → lookup k w.server.sessions ≡ some i
      → lookup k (remove_each calls m w).1.server.sessions ≡ some i
  unfolding remove_each
  each-keeps old [] w k i e l here = here
  each-keeps old ((token, item) ∷ rest) w k i (t, e) l here =
      each-keeps old rest _ k i e l (restored-keeps _ token item w.server old k i t l here)

  pub each-Within :
      (old m : Dict Session) (w : World)
      → Entries m old
      → Within w.server.sessions old
      → Within (remove_each calls m w).1.server.sessions old
  unfolding remove_each
  each-Within old [] w e within = within
  each-Within old ((token, item) ∷ rest) w (t, e) within =
      each-Within old rest _ e (restored-Within _ token item w.server old t within)

  module _ (answers : (token : String) → Answers (calls token)) where
    each-absent :
        (j : String) (m : Dict Session) (w : World)
        → lookup j w.db.islets ≡ none
        → lookup j (remove_each calls m w).1.db.islets ≡ none
    unfolding remove_each
    each-absent j [] w n = n
    each-absent j ((token, item) ∷ rest) w n =
        each-absent j rest _ (remove-absent j (calls token) (answers token) item.id w.db n)

    pub each-finished :
        (m : Dict Session) (w : World)
        → (remove_each calls m w).0 ≡ nil
        → ((remove_each calls m w).1.server ≡ w.server) × NoIslets m (remove_each calls m w).1.db
    unfolding remove_each
    each-finished [] w h = (refl, tt)
    each-finished ((token, item) ∷ rest) w h =
        let (o, es) = present-nil _ _ h in
        let (same, gone) = each-finished rest _ es in
        (
          same ∙ ap (λ o. restored o token item w.server) o,
          (
            each-absent item.id rest _ (remove-gone (calls token) (answers token) item.id w.db o),
            gone,
          ),
        )

    restored-accounted :
        (o : Option Err) (token : String) (item : Session) (s : Server) (db : Db)
        → (o ≡ none → lookup item.id db.islets ≡ none)
        → (lookup token (restored o token item s).sessions ≡ some item)
          ⊎ (lookup item.id db.islets ≡ none)
    unfolding store
    restored-accounted none token item s db gone = inr (gone refl)
    restored-accounted (some e) token item s db gone =
        inl (at_same token token item s.sessions refl)

    pub each-Accounted :
        (old m : Dict Session) (w : World)
        → Entries m old
        → Accounted m (remove_each calls m w).1.server.sessions (remove_each calls m w).1.db
    unfolding remove_each
    each-Accounted old [] w e = tt
    each-Accounted old ((token, item) ∷ rest) w (t, e) =
        let r = remove (calls token) item.id w.db in
        let next : World = record { server = restored r.0 token item w.server; db = r.1 } in
        let fate =
          restored-accounted r.0 token item w.server r.1
            (remove-gone (calls token) (answers token) item.id w.db) in
        (
          elim fate [
            | inl back ↦ inl (each-keeps old rest next token item e t back)
            | inr gone ↦ inr (each-absent item.id rest next gone)
          ],
          each-Accounted old rest next e,
        )
