-- ===== src/Client/Laws.antt =====
-- EtsiMec/utils.cpp, EtsiMec/applistclient.cpp and Executables/etsimeccli.cpp: the URL of the API,
-- the list that a client gets of a proxy, and the replies to a chat.
use etsimec.Prelude.{
  true, Str, str, none, some, ok, List, [], ◌∷◌, ◌++◌, ◌==◌, Str-eq, ◌≡◌, ◌≢◌, refl, arith,
}
use mathlib.Core.List.{append_assoc, append-nil}
use etsimec.Rest.{Rest}
use etsimec.Rest.Laws.{IsLawful}
use etsimec.AppInfo.{app_info_of_json}
use etsimec.LcmProxy.Routes.{base_url}
use etsimec.LcmProxy.{
  api_name, api_version, Applications, handle_app_list, application_list_of_map, values,
}
use etsimec.Client.{backwards, pop_slashes, remove_trailing_slashes, mx2root, read_infos, app_list}
use etsimec.Client.Mattermost.{Handled, Query, read_pair, read_pairs}

abbrev pub AreSlashes : Str → Type 0
AreSlashes [] = Unit
AreSlashes (c ∷ s) = (c ≡ 47) × AreSlashes s

backwards-append : (s t : Str) → backwards (s ++ t) ≡ backwards t ++ backwards s
unfolding backwards
backwards-append [] t = grind (arith, append-nil (backwards t))
backwards-append (c ∷ s) t =
    let ih = backwards-append s t in
    let e = append_assoc (backwards t) (backwards s) (c ∷ []) in grind arith

AreSlashes-append : (s t : Str) → AreSlashes s → AreSlashes t → AreSlashes (s ++ t)
AreSlashes-append [] t h k = k
AreSlashes-append (c ∷ s) t (e, h) k = (e, AreSlashes-append s t h k)

backwards-AreSlashes : (s : Str) → AreSlashes s → AreSlashes (backwards s)
unfolding backwards
backwards-AreSlashes [] h = tt
backwards-AreSlashes (c ∷ s) (e, h) =
    AreSlashes-append (backwards s) (c ∷ []) (backwards-AreSlashes s h) (e, tt)

pop_slashes-append : (s t : Str) → AreSlashes s → pop_slashes (s ++ t) ≡ pop_slashes t
unfolding pop_slashes
pop_slashes-append [] t h = refl
pop_slashes-append (c ∷ s) t (e, h) = let ih = pop_slashes-append s t h in ground arith

-- Slashes at the end of the API root make no difference to the URL.
pub mx2root-slashes :
    (root slashes : Str) → AreSlashes slashes → mx2root (root ++ slashes) ≡ mx2root root
unfolding mx2root remove_trailing_slashes
mx2root-slashes root slashes h =
    let e = backwards-append root slashes in
    let f =
      pop_slashes-append (backwards slashes) (backwards root) (backwards-AreSlashes slashes h) in
    grind arith

-- A client asks where a server with the same API root listens, up to the slashes that end the root.
pub mx2root-base_url :
    (root : Str)
    → mx2root root ++ str "/" ≡ base_url (remove_trailing_slashes root) api_name api_version
unfolding mx2root base_url
mx2root-base_url root =
    append_assoc (remove_trailing_slashes root) (str "/" ++ api_name ++ str "/" ++ api_version)
      (str "/")

module _ ⦃R : Rest⦄ (L : IsLawful R) where
  open R use {Value, object, set, array}

  -- Every value is the JSON of an `AppInfo`.
  abbrev pub AreInfos : List Value → Type 0
  AreInfos [] = Unit
  AreInfos (v ∷ vs) = (app_info_of_json v ≡ ok v) × AreInfos vs

  read_infos-AreInfos : (vs : List Value) → AreInfos vs → read_infos vs ≡ ok vs
  unfolding read_infos
  read_infos-AreInfos [] h = refl
  read_infos-AreInfos (v ∷ vs) (e, h) = let ih = read_infos-AreInfos vs h in ground arith

  -- Over a lawful REST library, a client that asks a proxy for its list gets exactly the
  -- applications of the proxy, in the order of their keys.
  pub app_list-handle_app_list :
      (apps : Applications)
      → AreInfos (values apps)
      → (body : Value) × ((handle_app_list apps).body ≡ some body)
        × (app_list (handle_app_list apps).status body ≡ ok (values apps))
  unfolding handle_app_list application_list_of_map app_list
  app_list-handle_app_list apps h =
      let list = set object (str "appInfo") (array (values apps)) in
      let h0 = L.is_object-object in
      let h1 = L.is_object-set object (array (values apps)) (str "appInfo") h0 in
      let h2 =
        L.has_object_field-set object list (str "ApplicationList") (str "ApplicationList") h0 in
      let h3 = L.at-set object list (str "ApplicationList") (str "ApplicationList") h0 in
      let h4 = L.has_array_field-set object (array (values apps)) (str "appInfo") h0 in
      let h5 = L.at-set object (array (values apps)) (str "appInfo") (str "appInfo") h0 in
      let h6 = L.is_array-array (values apps) in
      let h7 = L.as_array-array (values apps) in
      let h8 = read_infos-AreInfos (values apps) h in
      (set object (str "ApplicationList") list, refl, ground arith)

module _ (split : Str → Str → List Str) (decode : Str → Str) (token : Str) where
  -- No pair has the token of the server.
  abbrev pub Without : List (Str × Str) → Type 0
  Without [] = Unit
  Without ((name, value) ∷ pairs) =
      ((name == str "token") ≡ true → decode value ≢ token) × Without pairs

  abbrev authorize : Query → Query
  authorize q = record q { authorized = true }

  read_pair-Without :
      (name value : Str) (q : Query)
      → ((name == str "token") ≡ true → value ≢ token)
      → (read_pair split token name value q).authorized ≡ q.authorized
  unfolding read_pair
  read_pair-Without name value q n = ground arith

  pub read_pairs-Without :
      (pairs : List (Str × Str)) (q : Query)
      → Without pairs
      → (read_pairs split decode token pairs q).authorized ≡ q.authorized
  unfolding read_pairs read_pair
  read_pairs-Without [] q h = refl
  read_pairs-Without ((name, value) ∷ pairs) q (n, h) =
      let now = read_pair-Without name (decode value) q n in
      let later = read_pairs-Without pairs (read_pair split token name (decode value) q) h in
      grind arith

-- A request that is executed after a reply that refuses it.
abbrev pub refused : Handled → Handled
refused h = record h { replies = (401, none) ∷ h.replies }
