-- ===== src/Request/Tests.antt =====
-- `getFile` on a concrete handle, and its theorem at it.
use independent_study.Base.{◌≡◌, ◌↔◌, refl, [], ◌∷◌, some, ok, pos}
use independent_study.IoHandle.{IoHandle, World, object_at}
use independent_study.Broadcaster.{write}
use independent_study.Request.{Request, new_request, get_file, get_file_lem}

abbrev handle : IoHandle
handle = record { fd = pos 5; default_name = []; file_name = 0 }

abbrev world : World
world = record { objects = some handle ∷ []; closed = [] }

abbrev request : Request
request = new_request write (7 ∷ 8 ∷ []) 0 2

-- The handle owns descriptor 5, and `getFile` gives 1.
standard_output : get_file world request ≡ ok (pos 1)
unfolding get_file
standard_output = refl

get_file_lem_example : (get_file world request ≡ ok (pos 5)) ↔ (pos 5 ≡ pos 1)
unfolding object_at
get_file_lem_example = get_file_lem world request handle refl
