-- ===== src/Regions/Resolve.antt =====
-- What resolveRegionID finds, and the servers of a client (pia/pia.go).
use pia_wg_config_generator.Base.{
  Bool, true, false, Option, none, some, List, [], ◌∷◌, ◌++◌, ◌≡◌, ◌⊎◌, refl, sym, ap, ◌∙◌, inl,
  inr, Bool-cases,
}
use pia_wg_config_generator.Base.Text.{Text, text_eq, text_eq_iff, to_lower, trim_space, is_empty}
use pia_wg_config_generator.Regions.{
  Region, ServerList, Result, ok, failed, ClientError, PiaClient, is_skipped, servers_of, collect,
  has_common_name, find_by_name, find_by_server, first_found, resolve_region_id, some_servers,
  generate_wireguard_server_list, generate_metadata_server_list, and_then, new_pia_client,
  first_server, get_wireguard_server_for_region, get_metadata_server_for_region,
}
use pia_wg_config_generator.Regions.Servers.{eligible, servers_of-collect}

-- A region that the needle names: by its id, its name or a server's common name, in any case of
-- letters.
abbrev pub Names : Text → Region → Type 0
Names needle r =
    (to_lower r.id ≡ needle)
    ⊎ ((to_lower r.name ≡ needle) ⊎ (has_common_name needle (r.meta ++ r.wg) ≡ true))

-- A region of the list, not skipped, with that id, which the needle names.
pub data IsOffered (port_forwarding : Bool) (needle id : Text) : List Region → Type 0 where
  here :
      {r : Region} {regions : List Region}
      → is_skipped port_forwarding r ≡ false
      → Names needle r
      → r.id ≡ id
      → IsOffered port_forwarding needle id (r ∷ regions)
  there :
      {r : Region} {regions : List Region}
      → IsOffered port_forwarding needle id regions
      → IsOffered port_forwarding needle id (r ∷ regions)

some-injective : {a b : Text} → some a ≡ some b → a ≡ b
some-injective h = cc

module _ (pf : Bool) (needle id : Text) where
  find_by_name_sound :
      (regions : List Region)
      → find_by_name pf needle regions ≡ some id
      → IsOffered pf needle id regions
  unfolding find_by_name
  find_by_name_sound [] h = absurd (cc)
  find_by_name_sound (r ∷ regions) h = elim (Bool-cases (is_skipped pf r)) [
    | inl skip ↦ there (find_by_name_sound regions (rw skip at h))
    | inr take ↦ elim (Bool-cases (text_eq (to_lower r.id) needle)) [
      | inl by_id ↦
          here take (inl ((text_eq_iff (to_lower r.id) needle).0 by_id))
            (some-injective (rw (take, by_id) at h))
      | inr not_by_id ↦ elim (Bool-cases (text_eq (to_lower r.name) needle)) [
        | inl by_name ↦
            here take (inr (inl ((text_eq_iff (to_lower r.name) needle).0 by_name)))
              (some-injective (rw (take, not_by_id, by_name) at h))
        | inr not_by_name ↦
            there (find_by_name_sound regions (rw (take, not_by_id, not_by_name) at h))
      ]
    ]
  ]

  find_by_server_sound :
      (regions : List Region)
      → find_by_server pf needle regions ≡ some id
      → IsOffered pf needle id regions
  unfolding find_by_server
  find_by_server_sound [] h = absurd (cc)
  find_by_server_sound (r ∷ regions) h = elim (Bool-cases (is_skipped pf r)) [
    | inl skip ↦ there (find_by_server_sound regions (rw skip at h))
    | inr take ↦ elim (Bool-cases (has_common_name needle (r.meta ++ r.wg))) [
      | inl by_server ↦ here take (inr (inr by_server)) (some-injective (rw (take, by_server) at h))
      | inr not_by_server ↦ there (find_by_server_sound regions (rw (take, not_by_server) at h))
    ]
  ]

ok-injective : {a b : Text} → ok a ≡ ok b → a ≡ b
ok-injective h = cc

found :
    (input id : Text) (a b : Option Text)
    → first_found input a b ≡ ok id
    → (a ≡ some id) ⊎ (b ≡ some id)
unfolding first_found
found input id (some x) b h = inl (ap (λ (t : Text). some t) (ok-injective h))
found input id none (some x) h = inr (ap (λ (t : Text). some t) (ok-injective h))
found input id none none h = absurd (cc)

-- When resolveRegionID returns an id, it is that of a region in the list which supports port
-- forwarding if that is asked for, and whose id, name or server the input names, whatever the case
-- of letters and the blanks around it.
pub resolve_region_id-IsOffered :
    (port_forwarding : Bool) (input id : Text) (regions : List Region)
    → resolve_region_id port_forwarding input regions ≡ ok id
    → IsOffered port_forwarding (to_lower (trim_space input)) id regions
unfolding resolve_region_id
resolve_region_id-IsOffered pf input id regions h =
    let needle = to_lower (trim_space input) in
    elim (Bool-cases (is_empty (trim_space input))) [
      | inl blank ↦ absurd (not_ok (rw blank at h))
      | inr given ↦
          elim (found input id (find_by_name pf needle regions) (find_by_server pf needle regions)
            (rw given at h)) [
              | inl by_name ↦ find_by_name_sound pf needle id regions by_name
              | inr by_server ↦ find_by_server_sound pf needle id regions by_server
            ]
    ]
  where
    not_ok : {e : ClientError} {i : Text} → failed e ≡ ok i → ⊥
    not_ok e = cc

-- What a client holds of the server list.
record IsBuilt (port_forwarding : Bool) (regions : List Region) (c : PiaClient) : Type 0 where
  wireguard : c.wireguard_servers ≡ collect port_forwarding (λ r. r.wg) regions []
  metadata : c.metadata_servers ≡ collect port_forwarding (λ r. r.meta) regions []

some_servers_ok : (e : ClientError) (l m : ServerList) → some_servers e l ≡ ok m → m ≡ l
unfolding some_servers
some_servers_ok e [] m h = absurd (cc)
some_servers_ok e (x ∷ l) m h = cc

built :
    (pf : Bool) (regions : List Region) (c : PiaClient) (id : Result Text)
    (meta wg : Result ServerList)
    → ((l : ServerList) → meta ≡ ok l → l ≡ collect pf (λ r. r.meta) regions [])
    → ((l : ServerList) → wg ≡ ok l → l ≡ collect pf (λ r. r.wg) regions [])
    → (and_then id λ i. and_then meta λ m. and_then wg λ w. ok record {
      region = i;
      wireguard_servers = w;
      metadata_servers = m;
      raw_server_list = regions;
    })
      ≡ ok c
    → IsBuilt pf regions c
built pf regions c (failed e) meta wg hm hw h = absurd (cc)
built pf regions c (ok id) (failed e) wg hm hw h = absurd (cc)
built pf regions c (ok id) (ok m) (failed e) hm hw h = absurd (cc)
built pf regions c (ok id) (ok m) (ok w) hm hw h =
    let same : record {
      region = id;
      wireguard_servers = w;
      metadata_servers = m;
      raw_server_list = regions;
    }
        ≡ c =
      cc in
    record {
      wireguard = sym (ap (λ (x : PiaClient). x.wireguard_servers) same) ∙ hw w refl;
      metadata = sym (ap (λ (x : PiaClient). x.metadata_servers) same) ∙ hm m refl;
    }

new_pia_client-IsBuilt :
    (pf : Bool) (input : Text) (regions : List Region) (c : PiaClient)
    → new_pia_client pf input regions ≡ ok c
    → IsBuilt pf regions c
unfolding new_pia_client generate_wireguard_server_list generate_metadata_server_list
new_pia_client-IsBuilt pf input regions c h =
    built pf regions c (resolve_region_id pf input regions) _ _ (λ l e. some_servers_ok _ _ l e)
      (λ l e. some_servers_ok _ _ l e) h

-- The servers that a client talks to, for tokens and for keys, are the first ones of the regions
-- with the resolved id (which support port forwarding if that is asked for); where these have no
-- such server, the code panics on its index.
pub new_pia_client_servers :
    (port_forwarding : Bool) (input : Text) (regions : List Region) (c : PiaClient)
    → new_pia_client port_forwarding input regions ≡ ok c
    → (get_wireguard_server_for_region c
        ≡ first_server (eligible port_forwarding (λ r. r.wg) c.region regions))
      × (get_metadata_server_for_region c
          ≡ first_server (eligible port_forwarding (λ r. r.meta) c.region regions))
unfolding get_wireguard_server_for_region get_metadata_server_for_region servers_of
new_pia_client_servers pf input regions c h =
    let b = new_pia_client-IsBuilt pf input regions c h in
    (
      ap first_server (
          ap (servers_of c.region) b.wireguard
          ∙ servers_of-collect pf (λ r. r.wg) c.region regions []),
      ap first_server (
          ap (servers_of c.region) b.metadata
          ∙ servers_of-collect pf (λ r. r.meta) c.region regions []),
    )
