-- ===== src/System/Progress.antt =====
-- A file that passes becomes a function that is ready, where its message and its build are handled.
use oblak.Function
use oblak.Vm.Service
use oblak.Vm.Service.{prepare}
