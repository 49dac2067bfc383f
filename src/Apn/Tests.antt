-- ===== src/Apn/Tests.antt =====
-- Runs of apn_context.c, and its theorems at concrete tables.
use virtuallte.Common.{ℕ, ◌≡◌, ◌⊎◌, refl, true, [], ◌∷◌, CString, ok, reject}
use virtuallte.Apn.{ContextKind, ContextSource, Manager, manager_init, upsert, classify}
use virtuallte.Apn.Dense.{manager_init-IsDense}
use virtuallte.Apn.Upsert.{Assigned, Renewed, Created, upsert-Entered}
use virtuallte.Apn.Names.{Unknown}

abbrev upper_ims : CString
upper_ims = b'I' ∷ b'M' ∷ b'S' ∷ []

classify_run : classify (manager_init true) upper_ims ≡ ContextKind.ims_internal
unfolding classify manager_init
classify_run = refl

upsert-Entered_example :
    ((r : Manager × ℕ) × (place : ℕ) × (upsert
          (manager_init true)
          upper_ims
          0
          ContextSource.internal
        ≡ ok r)
      × Assigned (manager_init true) upper_ims 0 ContextSource.internal place r
      × (Renewed (manager_init true) upper_ims place r.0
          ⊎ Created (manager_init true) upper_ims place r.0))
    ⊎ ((upsert (manager_init true) upper_ims 0 ContextSource.internal ≡ reject)
        × ((upper_ims ≡ [])
            ⊎ (Unknown (manager_init true) upper_ims × ((manager_init true).next_id ≡ 17))))
upsert-Entered_example =
    upsert-Entered (manager_init true) upper_ims 0 ContextSource.internal
      (manager_init-IsDense true)
