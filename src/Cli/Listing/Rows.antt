-- ===== src/Cli/Listing/Rows.antt =====
-- What `regions` prints, and when (main.go, runRegions).
use mathlib.Core.List.{Memᴰ}
use mathlib.Core.List.Memᴰ
use pia_wg_config_generator.Base.{
  Bool, true, false, not, ◌&&◌, List, [], ◌∷◌, ◌≡◌, ◌⊎◌, refl, sym, ap, ◌∙◌, inl, inr, Bool-cases,
  arith,
}
use pia_wg_config_generator.Base.Text.{Text, to_lower, trim_space}
use pia_wg_config_generator.Api.{Answer, ok}
use pia_wg_config_generator.Api.{failed as not_answered}
use pia_wg_config_generator.Regions.{
  Region, PiaClient, ClientError, Result, failed, new_pia_client, get_available_regions,
  resolve_region_id, generate_metadata_server_list, generate_wireguard_server_list,
}
use pia_wg_config_generator.Regions.{ok as accepted}
use pia_wg_config_generator.Regions.Resolve.{IsOffered, resolve_region_id-IsOffered}
use pia_wg_config_generator.Cli.{
  CliError, CliResult-cases, refused, done, resolve_credentials, default_region, RegionRow,
  region_rows,
}
use pia_wg_config_generator.Cli.Listing.{
  RegionsFlags, no_listing, no_list, no_client, row_of, IsRowOf, Lists, printed, run_regions,
  with_account, listed, listed_by, shown,
}

Result-cases :
    {A : Type 0} (r : Result A)
    → ((a : A) × (r ≡ accepted a)) ⊎ ((e : ClientError) × (r ≡ failed e))
Result-cases (accepted a) = inl (a, refl)
Result-cases (failed e) = inr (e, refl)

failed-ne-accepted : {A : Type 0} (e : ClientError) (a : A) → failed e ≡ accepted a → ⊥
failed-ne-accepted e a h = cc

accepted-raw : (p q : PiaClient) → accepted p ≡ accepted q → p.raw_server_list ≡ q.raw_server_list
accepted-raw p q h = cc

-- A client comes of the whole list, in which it found its region.
new_pia_client-list :
    (pf : Bool) (region : Text) (regions : List Region) (p : PiaClient)
    → new_pia_client pf region regions ≡ accepted p
    → (p.raw_server_list ≡ regions)
      × ((id : Text) × IsOffered pf (to_lower (trim_space region)) id regions)
unfolding new_pia_client
new_pia_client-list pf region regions p h =
    elim (Result-cases (resolve_region_id pf region regions)) [
      | inr (e, lost) ↦ absurd (failed-ne-accepted e p (rw lost at h))
      | inl (id, found) ↦
          let h₁ = rw found at h in
          elim (Result-cases (generate_metadata_server_list pf regions)) [
            | inr (e, lost) ↦ absurd (failed-ne-accepted e p (rw lost at h₁))
            | inl (meta, has_meta) ↦
                let h₂ = rw has_meta at h₁ in
                elim (Result-cases (generate_wireguard_server_list pf regions)) [
                  | inr (e, lost) ↦ absurd (failed-ne-accepted e p (rw lost at h₂))
                  | inl (wg, has_wg) ↦ (
                    sym (accepted-raw _ p (rw has_wg at h₂)),
                    (id, resolve_region_id-IsOffered pf region id regions found),
                  )
                ]
          ]
    ]

allowed_of :
    (pf_only : Bool) (r : Region)
    → (pf_only && not r.port_forward) ≡ false
    → (pf_only ≡ false) ⊎ (r.port_forward ≡ true)
allowed_of pf_only r h = ground arith

-- The rows of a client with this list.
abbrev rows_of : Bool → PiaClient → List Region → List RegionRow
rows_of pf_only p regions =
    region_rows pf_only (get_available_regions (record p { raw_server_list = regions }))

IsRowOf-there :
    (pf_only : Bool) (r : Region) (regions : List Region) (row : RegionRow)
    → IsRowOf pf_only regions row
    → IsRowOf pf_only (r ∷ regions) row
IsRowOf-there pf_only r regions row (q, member, allowed, same) =
    (q, Memᴰ.tail member, allowed, same)

rows_of-IsRowOf :
    (pf_only : Bool) (p : PiaClient) (regions : List Region) (row : RegionRow)
    → Memᴰ row (rows_of pf_only p regions)
    → IsRowOf pf_only regions row
unfolding get_available_regions region_rows
rows_of-IsRowOf pf_only p [] row m = elim m [ ]
rows_of-IsRowOf pf_only p (r ∷ regions) row m = elim (Bool-cases (pf_only && not r.port_forward)) [
  | inl left_out ↦
      IsRowOf-there pf_only r regions row (rows_of-IsRowOf pf_only p regions row (rw left_out at m))
  | inr kept ↦ elim (Memᴰ.cases_cons (rw kept at m)) [
    | inl is_first ↦ (r, Memᴰ.head refl, allowed_of pf_only r kept, is_first)
    | inr behind ↦
        IsRowOf-there pf_only r regions row (rows_of-IsRowOf pf_only p regions row behind)
  ]
]

kept_of :
    (pf_only : Bool) (r : Region)
    → (pf_only ≡ false) ⊎ (r.port_forward ≡ true)
    → (pf_only && not r.port_forward) ≡ false
kept_of pf_only r h = ground arith

IsRowOf-rows_of :
    (pf_only : Bool) (p : PiaClient) (regions : List Region) (row : RegionRow)
    → IsRowOf pf_only regions row
    → Memᴰ row (rows_of pf_only p regions)
unfolding get_available_regions region_rows
IsRowOf-rows_of pf_only p [] row (q, m, allowed, same) = elim m [ ]
IsRowOf-rows_of pf_only p (r ∷ regions) row (q, Memᴰ.head is_r, allowed, same) =
    let kept = kept_of pf_only r (rw is_r at allowed) in
    let is_row : row ≡ row_of r = same ∙ ap row_of is_r in rw kept (Memᴰ.head is_row)
IsRowOf-rows_of pf_only p (r ∷ regions) row (q, Memᴰ.tail m, allowed, same) =
    let behind = IsRowOf-rows_of pf_only p regions row (q, m, allowed, same) in
    elim (Bool-cases (pf_only && not r.port_forward)) [
      | inl left_out ↦ rw left_out behind
      | inr kept ↦ rw kept (Memᴰ.tail behind)
    ]

-- The rows were printed, and the list offers the default region.
abbrev pub HasPrinted : RegionsFlags → Answer (List Region) → List Region → Type 0
HasPrinted flags list regions =
    (rows : List RegionRow) × (run_regions flags list ≡ printed flags rows)
    × Lists flags regions rows
    × ((id : Text) × IsOffered flags.pf_only (to_lower (trim_space default_region)) id regions)

with_account-lost :
    (flags : RegionsFlags) (account : Text × Text) (regions : List Region) (e : ClientError)
    → resolve_credentials flags.credentials ≡ done account
    → new_pia_client flags.pf_only default_region regions ≡ failed e
    → run_regions flags (ok regions) ≡ no_client e
unfolding run_regions with_account listed listed_by
with_account-lost flags account regions e given lost = rw (given, lost) refl

listed-HasPrinted :
    (flags : RegionsFlags) (account : Text × Text) (regions : List Region) (p : PiaClient)
    → resolve_credentials flags.credentials ≡ done account
    → new_pia_client flags.pf_only default_region regions ≡ accepted p
    → HasPrinted flags (ok regions) regions
unfolding run_regions with_account listed listed_by shown
listed-HasPrinted flags account regions p given made =
    let (whole, offered) = new_pia_client-list flags.pf_only default_region regions p made in
    (
      region_rows flags.pf_only (get_available_regions p),
      rw (given, made) refl,
      (λ row. all_rows p whole row),
      offered,
    )
  where
    all_rows :
        (p : PiaClient)
        → p.raw_server_list ≡ regions
        → Lists flags regions (region_rows flags.pf_only (get_available_regions p))
    all_rows p whole row = rw (sym whole) (
      rows_of-IsRowOf flags.pf_only p p.raw_server_list row,
      IsRowOf-rows_of flags.pf_only p p.raw_server_list row,
    )

-- `regions` prints the rows of the regions that support port forwarding, if that is asked for, and of
-- no others, as JSON or as lines, and then the list was downloaded and offers the default region
-- amsterdam404, with port forwarding if that is asked for; or it fails for its credentials, or because
-- the download failed, or because NewPIAClient does not accept the list for that region.
pub run_regions_cases :
    (flags : RegionsFlags) (list : Answer (List Region))
    → ((regions : List Region) × (list ≡ ok regions) × HasPrinted flags list regions)
      ⊎ (((e : CliError) × (run_regions flags list ≡ no_listing e)
            × (resolve_credentials flags.credentials ≡ refused e))
          ⊎ (((e : Text) × (run_regions flags list ≡ no_list e) × (list ≡ not_answered e))
              ⊎ ((regions : List Region) × (list ≡ ok regions)
                  × ((e : ClientError) × (run_regions flags list ≡ no_client e)
                      × (new_pia_client flags.pf_only default_region regions ≡ failed e)))))
unfolding run_regions with_account listed
run_regions_cases flags (not_answered why) =
    elim (CliResult-cases (resolve_credentials flags.credentials)) [
      | inr (e, missing) ↦ inr (inl (e, rw missing refl, missing))
      | inl (account, given) ↦ inr (inr (inl (why, rw given refl, refl)))
    ]
run_regions_cases flags (ok regions) =
    elim (CliResult-cases (resolve_credentials flags.credentials)) [
      | inr (e, missing) ↦ inr (inl (e, rw missing refl, missing))
      | inl (account, given) ↦
          elim (Result-cases (new_pia_client flags.pf_only default_region regions)) [
            | inr (e, lost) ↦ inr (
                inr (
                  inr (
                    regions,
                    refl,
                    (e, with_account-lost flags account regions e given lost, lost),
                  )))
            | inl (p, made) ↦
                inl (regions, refl, listed-HasPrinted flags account regions p given made)
          ]
    ]
