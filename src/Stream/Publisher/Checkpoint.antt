-- ===== src/Stream/Publisher/Checkpoint.antt =====
-- src/stream.rs, `SessionPublisher::publish_heap_checkpoint`.
use pprofessor.Common.{ok, err, ◌≡◌, ◌⊎◌, inl, inr, refl, ap, Result-cases}
use pprofessor.Pprof.Profile
use pprofessor.Pprof.Profile.{PprofProfile}
use pprofessor.Heap.Validate.{ProfileError, Checked, validate_profile}
use pprofessor.Heap.Validate.Shape.{IsWellFormed, validate_profile_iff}
use pprofessor.Stream.{profile_checkpoint}
use pprofessor.Stream.Publisher.{Publisher, Answers, Outcome, send}

-- The call's result: an invalid profile, or what `send` answered.
pub data Published : Type 0 where
  rejected : ProfileError → Published
  handed_on : Outcome → Published

abbrev pub handed : Publisher × Outcome → Publisher × Published
handed (p, o) = (p, handed_on o)

abbrev pub publish_checked :
    Publisher → Answers → PprofProfile → Checked (Unit {0}) → Publisher × Published
publish_checked p a profile (err e) = (p, rejected e)
publish_checked p a profile (ok t) = handed (send p a profile_checkpoint (Profile.encode profile))

unfoldable pub publish_heap_checkpoint : Publisher → Answers → PprofProfile → Publisher × Published
publish_heap_checkpoint p a profile = publish_checked p a profile (validate_profile profile)

-- The profile is rejected, with nothing sent and the publisher as it was.
pub record IsRejected (p : Publisher) (r : Publisher × Published) : Type 0 where
  pub unchanged : r.0 ≡ p
  pub reason : ProfileError
  pub said : r.1 ≡ rejected reason

-- A well-formed heap profile is sent, encoded, as a profile checkpoint; any other is rejected, and
-- then the publisher and its connection stay as they were.
pub publish_heap_checkpoint_cases :
    (p : Publisher) (a : Answers) (profile : PprofProfile)
    → (IsWellFormed profile
        × (publish_heap_checkpoint p a profile
            ≡ handed (send p a profile_checkpoint (Profile.encode profile))))
      ⊎ ((¬ IsWellFormed profile) × IsRejected p (publish_heap_checkpoint p a profile))
unfolding publish_heap_checkpoint
publish_heap_checkpoint_cases p a profile = elim (Result-cases (validate_profile profile)) [
  | inl (t, e) ↦ inl ((validate_profile_iff profile).0 e, ap (publish_checked p a profile) e)
  | inr (x, e) ↦ inr (
    λ w. cc (e, (validate_profile_iff profile).1 w),
    rw e (record { unchanged = refl; reason = x; said = refl }),
  )
]
