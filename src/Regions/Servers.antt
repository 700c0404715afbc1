-- ===== src/Regions/Servers.antt =====
-- What the maps of servers hold (pia/pia.go, generateWireguardServerList and
-- generateMetadataServerList).
use mathlib.Core.List
use pia_wg_config_generator.Base.{
  Bool, true, false, List, [], ◌∷◌, ◌++◌, ◌≡◌, refl, sym, ◌∙◌, inl, inr, if◌then◌else◌, Bool-cases,
}
use pia_wg_config_generator.Base.Text.{Text, text_eq, text_eq_iff}
use pia_wg_config_generator.Regions.{
  Server, Region, ServerList, is_skipped, servers_of, append_server, append_servers, collect,
}

-- All the servers of the regions with an id that are not skipped, in the order of the list.
abbrev pub eligible : Bool → (Region → List Server) → Text → List Region → List Server
eligible port_forwarding servers id [] = []
eligible port_forwarding servers id (r ∷ regions) =
    let rest = eligible port_forwarding servers id regions in
    if is_skipped port_forwarding r
    then rest
    else if text_eq r.id id
    then servers r ++ rest
    else rest

other_key : (k key id : Text) → text_eq k key ≡ false → text_eq k id ≡ true → text_eq key id ≡ false
other_key k key id differ hit = elim (Bool-cases (text_eq key id)) [
  | inl same ↦
      let at_id = (text_eq_iff k id).0 hit in
      let there = (text_eq_iff key id).0 same in
      let equal = (text_eq_iff k key).1 (at_id ∙ sym there) in absurd (cc)
  | inr h ↦ h
]

servers_of-append_server :
    (id key : Text) (s : Server) (list : ServerList)
    → servers_of id (append_server key s list)
      ≡ (if text_eq key id then servers_of id list ++ (s ∷ []) else servers_of id list)
unfolding servers_of append_server
servers_of-append_server id key s [] = refl
servers_of-append_server id key s ((k, servers) ∷ rest) = elim (Bool-cases (text_eq k key)) [
  | inl same ↦
      rw (same, (text_eq_iff k key).0 same)
        (elim (Bool-cases (text_eq key id)) [ inl hit ↦ rw hit refl | inr miss ↦ rw miss refl ])
  | inr differ ↦ rw differ (elim (Bool-cases (text_eq k id)) [
    | inl hit ↦ rw (hit, other_key k key id differ hit) refl
    | inr miss ↦ rw miss (servers_of-append_server id key s rest)
  ])
]

servers_of-append_servers :
    (id key : Text) (new : List Server) (list : ServerList)
    → servers_of id (append_servers key new list)
      ≡ (if text_eq key id then servers_of id list ++ new else servers_of id list)
unfolding append_servers
servers_of-append_servers id key [] list = elim (Bool-cases (text_eq key id)) [
  | inl hit ↦ rw hit (sym (List.append-nil (servers_of id list)))
  | inr miss ↦ rw miss refl
]
servers_of-append_servers id key (s ∷ new) list =
    servers_of-append_servers id key new (append_server key s list)
    ∙ elim (Bool-cases (text_eq key id)) [
      | inl hit ↦
          rw (hit, servers_of-append_server id key s list, hit)
            (List.append_assoc (servers_of id list) (s ∷ []) new)
      | inr miss ↦ rw (miss, servers_of-append_server id key s list, miss) refl
    ]

-- The map that the loop builds holds under each id the servers that it held, and behind them those
-- of every region with that id that is not skipped, in the order of the list.
pub servers_of-collect :
    (port_forwarding : Bool) (servers : Region → List Server) (id : Text) (regions : List Region)
    (list : ServerList)
    → servers_of id (collect port_forwarding servers regions list)
      ≡ servers_of id list ++ eligible port_forwarding servers id regions
unfolding collect
servers_of-collect pf servers id [] list = sym (List.append-nil (servers_of id list))
servers_of-collect pf servers id (r ∷ regions) list = elim (Bool-cases (is_skipped pf r)) [
  | inl skipped ↦ rw skipped (servers_of-collect pf servers id regions list)
  | inr taken ↦ rw taken (
      servers_of-collect pf servers id regions (append_servers r.id (servers r) list)
      ∙ elim (Bool-cases (text_eq r.id id)) [
        | inl hit ↦
            rw (servers_of-append_servers id r.id (servers r) list, hit)
              (List.append_assoc (servers_of id list) (servers r) (eligible pf servers id regions))
        | inr miss ↦ rw (servers_of-append_servers id r.id (servers r) list, miss) refl
      ])
]
