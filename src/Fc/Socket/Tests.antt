-- ===== src/Fc/Socket/Tests.antt =====
-- The theorems on the API socket with a process that serves every request.
use firefork_ai.Prelude.{◌≡◌, refl, Bool, true, false, ok, total, All}
use firefork_ai.Prelude.Text.{codes}
use firefork_ai.Fc.Host.{SnapshotPaths}
use firefork_ai.Fc.Socket.{
  LoadsOnly, Request, RestoreOptions, restore_on_socket, load_on_socket, resume_on_socket,
  resume_loaded, restore_on_socket-resumes, loads, resumes,
}

abbrev serves_all : Request → Bool
serves_all r = true

abbrev bundle : SnapshotPaths
bundle = record { mem_file_path = codes "/m"; state_path = codes "/s" }

abbrev plain : RestoreOptions
plain = record { resume_on_load = true; combined_load_resume = false }

restored : (restore_on_socket serves_all (codes "/sock") bundle plain).1 ≡ ok tt
unfolding restore_on_socket resume_loaded
restored = refl

restore_on_socket-resumes_example :
    let r = restore_on_socket serves_all (codes "/sock") bundle plain in
    (total loads r.0 ≡ 1)
    × (total resumes r.0 ≡ 1)
    × All (LoadsOnly bundle) r.0
    × All (λ q. serves_all q ≡ true) r.0
restore_on_socket-resumes_example =
    restore_on_socket-resumes serves_all (codes "/sock") bundle plain restored

loaded : (load_on_socket serves_all (codes "/sock") bundle).1 ≡ ok tt
unfolding load_on_socket
loaded = refl

resumed : (resume_on_socket serves_all (codes "/sock")).1 ≡ ok tt
unfolding resume_on_socket
resumed = refl
