-- ===== src/Main/Startup/Settling.antt =====
-- The settings that one start leaves behind are those that the next start finds.
use local_messenger.Common.{
  ◌≡◌, ◌≢◌, refl, sym, ap, ◌∙◌, subst, Bool, true, false, [], ◌∷◌, Option, none, some, Bytes, arith,
  Option-cases, inl, inr,
}
use local_messenger.Json.{JsonLibrary, IsJsonLibrary}
use local_messenger.Storage.Settings.{
  AppSettings, SettingsManager, default_settings, to_json, new_manager, update, loaded,
}
use local_messenger.Storage.Settings.File.{IsSettings, new_manager-update, update_loses}
use local_messenger.Main.Startup.{Settled, unless_thrown, settle_name, settle_dirs, settle}

default_settings-IsSettings : IsSettings default_settings
unfolding default_settings
default_settings-IsSettings = record {
  tcp_bound = omega arith;
  udp_bound = omega arith;
  file_bound = omega arith;
}

not_thrown :
    {A : Type 0} (next : SettingsManager → Option A) (r : SettingsManager × Bool) (a : A)
    → unless_thrown next r ≡ some a
    → (m : SettingsManager) × (r ≡ (m, false)) × (next m ≡ some a)
not_thrown next (m, false) a e = (m, refl, e)
not_thrown next (m, true) a e = cc

module _ (lib : JsonLibrary) (is_lib : IsJsonLibrary lib) where
  -- A manager that a new start makes again of its file.
  abbrev IsSynced : SettingsManager → Type 0
  IsSynced m = (can_write : Bool) → new_manager lib can_write m.file ≡ (m, false)

  update-IsSynced :
      (s : AppSettings) (m m' : SettingsManager)
      → IsSettings s
      → update lib true s m ≡ (m', false)
      → IsSynced m' × (m'.settings ≡ s)
  update-IsSynced s m m' v e = elim (Option-cases (lib.dump (to_json lib s))) [
    | inl n ↦ let (lost, again) = update_loses lib is_lib s m true n in ground (arith, lost, e)
    | inr (text, d) ↦
        let (kept, again) = new_manager-update lib is_lib s m text true v d in
        let same : record { settings = s; file = some text } ≡ m' = ground (arith, kept, e) in
        subst (λ x. IsSynced x × (x.settings ≡ s)) same
          (λ w. (new_manager-update lib is_lib s m text w v d).1, refl)
  ]

  loaded-file : (o : Option AppSettings) (m : SettingsManager) → (loaded lib o m).file ≡ m.file
  unfolding loaded
  loaded-file none m = refl
  loaded-file (some s) m = refl

  new_manager-IsSynced :
      (file : Option Bytes) (m : SettingsManager)
      → new_manager lib true file ≡ (m, false)
      → IsSynced m
  unfolding new_manager
  new_manager-IsSynced none m e =
      (update-IsSynced default_settings (record { settings = default_settings; file = none }) m
        default_settings-IsSettings (unfold update in e)).0
  new_manager-IsSynced (some t) m e =
      let same : m.file ≡ some t = sym (ap (λ r. r.0.file) e) ∙ loaded-file _ _ in
      λ w. subst (λ f. new_manager lib w f ≡ (m, false)) (sym same) e

  record IsSettled (r : Settled) : Type 0 where
    synced : IsSynced r.manager
    copied : r.manager.settings ≡ r.cfg
    named : r.username ≡ r.cfg.username

  settle_name-IsSettled :
      (arg : Option Bytes) (cfg : AppSettings) (m : SettingsManager) (r : Settled)
      → settle_name lib true arg cfg m ≡ some r
      → IsSynced m
      → m.settings ≡ cfg
      → IsSettings r.cfg
      → IsSettled r
  unfolding settle_name
  settle_name-IsSettled none cfg m r e k c v =
      let same : record { manager = m; cfg = cfg; username = cfg.username } ≡ r =
        ground (arith, e) in
      subst IsSettled same (record { synced = k; copied = c; named = refl })
  settle_name-IsSettled (some arg) cfg m r e k c v =
      let named : AppSettings = record cfg { username = arg } in
      let (m', done, last) =
        not_thrown (λ n. some (record { manager = n; cfg = named; username = arg }))
          (update lib true named m) r e in
      let same : record { manager = m'; cfg = named; username = arg } ≡ r = ground (arith, last) in
      let (k', c') =
        update-IsSynced named m m' (subst (λ x. IsSettings x) (ap (λ x. x.cfg) (sym same)) v)
          done in
      subst IsSettled same (record { synced = k'; copied = c'; named = refl })

  -- The name is all that settle_name changes.
  settle_name-ports :
      (arg : Option Bytes) (cfg : AppSettings) (m : SettingsManager) (r : Settled)
      → settle_name lib true arg cfg m ≡ some r
      → (IsSettings r.cfg → IsSettings cfg) × (r.cfg.data_dir ≡ cfg.data_dir)
  unfolding settle_name
  settle_name-ports none cfg m r e =
      let same : cfg ≡ r.cfg = ground (arith, e) in
      (λ v. subst (λ x. IsSettings x) (sym same) v, ap (λ x. x.data_dir) (sym same))
  settle_name-ports (some arg) cfg m r e =
      let named : AppSettings = record cfg { username = arg } in
      let (m', done, last) =
        not_thrown (λ n. some (record { manager = n; cfg = named; username = arg }))
          (update lib true named m) r e in
      let same : named ≡ r.cfg = ground (arith, last) in
      (
        λ v.
            let w : IsSettings named = subst (λ x. IsSettings x) (sym same) v in
            record { tcp_bound = w.tcp_bound; udp_bound = w.udp_bound; file_bound = w.file_bound },
        ap (λ x. x.data_dir) (sym same),
      )

  settle_dirs-IsSettled :
      (dir data_dir download_dir : Bytes) (arg : Option Bytes) (cfg : AppSettings)
      (m : SettingsManager) (r : Settled)
      → settle_dirs lib true dir data_dir download_dir arg cfg m ≡ some r
      → IsSynced m
      → m.settings ≡ cfg
      → cfg.data_dir ≡ dir
      → data_dir ≢ []
      → IsSettings r.cfg
      → IsSettled r × (r.cfg.data_dir ≢ [])
  unfolding settle_dirs
  settle_dirs-IsSettled [] data_dir download_dir arg cfg m r e k c d n v =
      let filled : AppSettings = record cfg { data_dir = data_dir; download_dir = download_dir } in
      let (m', done, last) =
        not_thrown (settle_name lib true arg filled) (update lib true filled m) r e in
      let (ports, dir) = settle_name-ports arg filled m' r last in
      let (k', c') = update-IsSynced filled m m' (ports v) done in
      (settle_name-IsSettled arg filled m' r last k' c' v, subst (λ x. x ≢ []) (sym dir) n)
  settle_dirs-IsSettled (b ∷ bs) data_dir download_dir arg cfg m r e k c d n v =
      let (ports, dir) = settle_name-ports arg cfg m r e in
      (settle_name-IsSettled arg cfg m r e k c v, λ x. cc)

  unfilled :
      (dir data_dir download_dir : Bytes) (can_write : Bool) (cfg : AppSettings)
      (m : SettingsManager)
      → dir ≢ []
      → settle_dirs lib can_write dir data_dir download_dir none cfg m
        ≡ some (record { manager = m; cfg = cfg; username = cfg.username })
  unfolding settle_dirs settle_name
  unfilled [] data_dir download_dir can_write cfg m n = absurd (n refl)
  unfilled (b ∷ bs) data_dir download_dir can_write cfg m n = refl

  settled_again :
      (r : Settled) (data_dir download_dir : Bytes) (can_write : Bool)
      → IsSettled r
      → r.cfg.data_dir ≢ []
      → settle lib can_write data_dir download_dir none r.manager.file ≡ some r
  unfolding settle
  settled_again r data_dir download_dir can_write s n =
      let m : SettingsManager = r.manager in
      let there : m.settings.data_dir ≢ [] = subst (λ x. x.data_dir ≢ []) (sym s.copied) n in
      let same : record { manager = m; cfg = m.settings; username = m.settings.username } ≡ r =
        ground (arith, s.copied, s.named) in
      simp (s.synced can_write) (
        unfilled m.settings.data_dir data_dir download_dir can_write m.settings m there
        ∙ ap some same)

  -- A start that throws nothing, whatever the file held, where files open, the folder is not empty and
  -- the ports stay below 2 ^ 16: a later start without an argument, in whatever folders, finds the
  -- same settings, the same file and the same name.
  pub settle_again :
      (data_dir download_dir other_dir other_download : Bytes) (arg file : Option Bytes)
      (can_write : Bool) (r : Settled)
      → data_dir ≢ []
      → IsSettings r.cfg
      → settle lib true data_dir download_dir arg file ≡ some r
      → settle lib can_write other_dir other_download none r.manager.file ≡ some r
  settle_again data_dir download_dir other_dir other_download arg file can_write r n v e =
      let (m, made, rest) =
        not_thrown
          (λ m. settle_dirs lib true m.settings.data_dir data_dir download_dir arg m.settings m)
          (new_manager lib true file) r (unfold settle in e) in
      let (s, there) =
        settle_dirs-IsSettled m.settings.data_dir data_dir download_dir arg m.settings m r rest
          (new_manager-IsSynced file m made) refl refl n v in
      settled_again r other_dir other_download can_write s there
