-- ===== src/Examples/Doctors.antt =====
-- The theorem on the doctor: a host whose runtime path is not writable.
use schedune.Base.{◌≡◌, refl, true, none, ◌++◌, ◌==◌, not}
use schedune.Doctor.{Probe, next_step, run_doctor}
use schedune.Doctor.Verdict.{fails, runtime_item, sweep_item, run_doctor-fails}

abbrev probe : Probe
probe = record {
  goos = "linux";
  goarch = "amd64";
  kernel_version = "6.8.0";
  can_access = λ path mode. not (path == "./var/run");
  mkdir_all = λ path. none;
  is_present = λ path. true;
  temp_dir = "/tmp";
  look_path = λ name. none;
  check_port = λ port. true;
}

run_doctor-fails_example : fails (run_doctor probe) ≡ runtime_item probe ++ sweep_item probe
unfolding next_step
run_doctor-fails_example = run_doctor-fails probe refl
