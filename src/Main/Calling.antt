-- ===== src/Main/Calling.antt =====
-- main.cpp, core/room.cpp: roomMgr::Update with the calls to other servers that the rooms make.
use kcpserver_cpp.Common.{◌≡◌, ◌⊎◌, Outcome, ok, abort}
use kcpserver_cpp.Game.State.{Game}

-- It returns, or an assertion fails or behaviour is not defined.
abbrev pub Ends {ℓ} : {A : Type ℓ} → Outcome A → Type ℓ
Ends {A} o = ((a : A) × (o ≡ ok a)) ⊎ (o ≡ abort)
