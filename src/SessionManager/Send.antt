-- ===== src/SessionManager/Send.antt =====
-- What `send_octets` and `send_protocol` of source/bee/io/session_manager.cpp put into a session's buffer.
use cassobee.Base.{
  ℕ, ◌≡◌, ◌≤◌, ◌<◌, ◌+◌, ◌∙◌, ap, arith, ◌>>=◌, some, true, false, ◌++◌, length, ltb, ◌==◌,
  if◌then◌else◌,
}
use cassobee.Octets.{Octets, Memory, free_space, append}
use cassobee.Octets.Inv.{IsValid, contents, length-contents, Outcome}
use cassobee.Octets.Append.{append_lem}
use cassobee.Session.{Session}
use cassobee.SessionManager.{Manager, update, find_session, is_close, enqueue, send_to, send_octets}
use cassobee.SessionManager.Table.{find-update_found}

module _ (mem : Memory) (m : Manager) (sid : ℕ) (ses : Session)
    (there : find_session sid m ≡ some ses) (v : IsValid ses.writeos.content) where
  -- The bytes of a valid buffer that are sent to a session that is found, is not closing, and has
  -- room for them in the block of a valid `_writeos`, stand behind those of `_writeos`. Every
  -- other session stays as it was.
  pub send_octets_lem :
      (oct : Octets) (other : ℕ)
      → IsValid oct
      → is_close ses ≡ false
      → ses.writeos.content.len + oct.len ≤ ses.writeos.content.cap
      → (m' : Manager) × (ses' : Session) × (send_octets mem sid oct m ≡ some m')
        × (contents ses'.writeos.content ≡ contents ses.writeos.content ++ contents oct)
        × (find_session other m' ≡ (if other == sid then some ses' else find_session other m))
  unfolding send_octets send_to enqueue find_session free_space
  send_octets_lem oct other w not_closing room =
      let len : length (contents oct) ≡ oct.len = length-contents w in
      let fits : ltb (free_space ses.writeos.content) (length (contents oct)) ≡ false =
        ground (arith, v.within, v.small) in
      let r : Outcome (append mem ses.writeos.content (contents oct)) _ _ =
        append_lem mem v (contents oct) (omega (arith, v.small)) in
      let ses' : Session = record ses { writeos = record (ses.writeos) { content = r.after } } in
      (
        record m { sessions = update sid ses' m.sessions },
        ses',
        ap (send_to mem sid (contents oct) m) there
            ∙ rw (not_closing, fits)
                (ap
                  (λ x.
                    (x >>= λ o.
                    some (record ses { writeos = record (ses.writeos) { content = o } }))
                    >>= λ s. some (record m { sessions = update sid s m.sessions }))
                  r.returns),
        r.holds,
        find-update_found sid other ses' ses m.sessions there,
      )

  -- Where the block of the `_writeos` of a session that is found has no room for all the bytes,
  -- `send_octets` changes nothing.
  pub send_octets_full :
      (oct : Octets)
      → IsValid oct
      → ses.writeos.content.cap < ses.writeos.content.len + oct.len
      → send_octets mem sid oct m ≡ some m
  unfolding send_octets send_to free_space
  send_octets_full oct w full =
      let len : length (contents oct) ≡ oct.len = length-contents w in
      let no_room : ltb (free_space ses.writeos.content) (length (contents oct)) ≡ true =
        ground (arith, v.within, v.small) in
      ap (send_to mem sid (contents oct) m) there ∙ rw no_room (ground arith)
