-- ===== src/Shell/UpdateState/Fields.antt =====
-- The fields of the state that are read are bounded.
use sshos.Base.{
  ◌≤◌, ◌≡◌, refl, ◌⊎◌, inl, inr, Bool, true, false, not, ◌&&◌, ◌||◌, Option, none, some, List,
  Bytes, length, take, length-take, ltb, if◌then◌else◌, arith, Bool-cases,
}
use sshos.Base.Int.{ℤ, pos, negsuc, ◌≤ℤ◌, leb_ℤ}
use sshos.Base.Text.{codes, ==_Bytes}
use sshos.Shell.UpdateState.{
  UpdateStatus, UpdateState, is_version, clean_version, within, with_status, read_status,
  with_field, read_int64, to_pid, max_int64,
}

abbrev pub IsVersion : Bytes → Type 0
IsVersion s = (length s ≤ 12) × (is_version s ≡ true)

pub record IsBounded (now : ℤ) (u : UpdateState) : Type 0 where
  pub installed : IsVersion u.installed_version
  pub remote : IsVersion u.remote_version
  pub ahead : (pos 0 ≤ℤ u.commits_ahead) × (u.commits_ahead ≤ℤ pos 999999)
  pub checked : (pos 0 ≤ℤ u.checked_at) × ((u.checked_at ≡ pos 0) ⊎ (u.checked_at ≤ℤ now))
  pub stage : length u.stage ≤ 40
  pub progress : (negsuc 0 ≤ℤ u.progress) × (u.progress ≤ℤ pos 100)
  pub message : length u.message ≤ 200

clean_version-IsVersion : (s : Bytes) → IsVersion (clean_version s)
unfolding clean_version
clean_version-IsVersion s = elim (Bool-cases (ltb 12 (length s) || not (is_version s))) [
  | inl e ↦ rw e (unfold is_version in (omega arith, refl))
  | inr e ↦ rw e (ground arith, ground arith)
]

module _ (now : ℤ) where
  IsBounded-if :
      (b : Bool) (u w : UpdateState)
      → IsBounded now u
      → IsBounded now w
      → IsBounded now (if b then u else w)
  IsBounded-if true u w h k = h
  IsBounded-if false u w h k = k

  -- The fields that are not bounded.
  pub touched :
      (u : UpdateState) (status : UpdateStatus) (prefix source now_at before there : Bytes)
      (pid : ℤ) (restart : Bool) (notes : List Bytes)
      → IsBounded now u
      → IsBounded now (record u {
        status = status;
        prefix = prefix;
        source = source;
        installed_commit = now_at;
        previous_commit = before;
        remote_commit = there;
        pid = pid;
        restart_pending = restart;
        notes = notes;
      })
  touched u _ _ _ _ _ _ _ _ _ h = record {
    installed = h.installed;
    remote = h.remote;
    ahead = h.ahead;
    checked = h.checked;
    stage = h.stage;
    progress = h.progress;
    message = h.message;
  }

  within-IsBounded :
      (lo hi : ℤ) (o : Option ℤ) (f : ℤ → UpdateState) (u : UpdateState)
      → IsBounded now u
      → ((v : ℤ) → lo ≤ℤ v → v ≤ℤ hi → IsBounded now (f v))
      → IsBounded now (within lo hi o f u)
  within-IsBounded lo hi none f u h k = h
  within-IsBounded lo hi (some v) f u h k = elim (Bool-cases (leb_ℤ lo v && leb_ℤ v hi)) [
    | inl e ↦ rw e (k v (ground arith) (ground arith))
    | inr e ↦ rw e h
  ]

  with_status-IsBounded :
      (o : Option UpdateStatus) (u : UpdateState)
      → IsBounded now u
      → IsBounded now (with_status o u)
  with_status-IsBounded none u h = h
  with_status-IsBounded (some s) u h = touched u s _ _ _ _ _ _ _ _ h

  module _ (u : UpdateState) (h : IsBounded now u) where
    versions :
        (a b : Bytes)
        → IsVersion a
        → IsVersion b
        → IsBounded now (record u { installed_version = a; remote_version = b })
    versions a b v w = record {
      installed = v;
      remote = w;
      ahead = h.ahead;
      checked = h.checked;
      stage = h.stage;
      progress = h.progress;
      message = h.message;
    }

    texts :
        (a b : Bytes)
        → length a ≤ 40
        → length b ≤ 200
        → IsBounded now (record u { stage = a; message = b })
    texts a b v w = record {
      installed = h.installed;
      remote = h.remote;
      ahead = h.ahead;
      checked = h.checked;
      stage = v;
      progress = h.progress;
      message = w;
    }

    numbers :
        (ahead checked progress : ℤ)
        → (pos 0 ≤ℤ ahead) × (ahead ≤ℤ pos 999999)
        → (pos 0 ≤ℤ checked) × ((checked ≡ pos 0) ⊎ (checked ≤ℤ now))
        → (negsuc 0 ≤ℤ progress) × (progress ≤ℤ pos 100)
        → IsBounded now
            (record u { commits_ahead = ahead; checked_at = checked; progress = progress })
    numbers _ _ _ a c p = record {
      installed = h.installed;
      remote = h.remote;
      ahead = a;
      checked = c;
      stage = h.stage;
      progress = p;
      message = h.message;
    }

    pub with_field-IsBounded : (key value : Bytes) → IsBounded now (with_field now key value u)
    unfolding with_field
    with_field-IsBounded key value =
        let v = read_int64 value in
        let t = touched u in
        let is : (name : Bytes) (a b : UpdateState)
            → IsBounded now a
            → IsBounded now b
            → IsBounded now (if ==_Bytes key name then a else b) =
          λ name. IsBounded-if (==_Bytes key name) in
        is (codes "prefix") _ _ (t _ _ _ _ _ _ _ _ _ h) (
          is (codes "source") _ _ (t _ _ _ _ _ _ _ _ _ h) (
            is (codes "installed_commit") _ _ (t _ _ _ _ _ _ _ _ _ h) (
              is (codes "previous_commit") _ _ (t _ _ _ _ _ _ _ _ _ h) (
                is (codes "remote_commit") _ _ (t _ _ _ _ _ _ _ _ _ h) (
                  is (codes "installed_version") _ _
                    (versions _ _ (clean_version-IsVersion value) h.remote)
                    (is (codes "remote_version") _ _
                      (versions _ _ h.installed (clean_version-IsVersion value))
                      (is (codes "commits_ahead") _ _
                        (within-IsBounded (pos 1) (pos 999999) v
                          (λ n. record u { commits_ahead = n }) u h
                          λ n a b.
                            numbers n u.checked_at u.progress (omega (arith, a), b) h.checked
                              h.progress)
                        (is (codes "checked_at") _ _
                          (within-IsBounded (pos 0) now v (λ n. record u { checked_at = n }) u h
                            λ n a b.
                              numbers u.commits_ahead n u.progress h.ahead (a, inr b) h.progress)
                          (is (codes "status") _ _ (with_status-IsBounded (read_status value) u h) (
                            is (codes "restart_pending") _ _ (t _ _ _ _ _ _ _ _ _ h) (
                              is (codes "pid") _ _
                                (within-IsBounded (pos 1) (pos max_int64) v
                                  (λ n. record u { pid = to_pid n }) u h
                                  λ n a b. t _ _ _ _ _ _ _ _ _ h)
                                (is (codes "stage") _ _
                                  (texts (take 40 value) u.message
                                    (omega (arith, length-take 40 value)) h.message)
                                  (is (codes "progress") _ _
                                    (within-IsBounded (pos 0) (pos 100) v
                                      (λ n. record u { progress = n }) u h
                                      λ n a b.
                                        numbers u.commits_ahead u.checked_at n h.ahead h.checked
                                          (omega (arith, a), b))
                                    (is (codes "message") _ _
                                      (texts u.stage (take 200 value) h.stage
                                        (omega (arith, length-take 200 value)))
                                      h))))))))))))))
