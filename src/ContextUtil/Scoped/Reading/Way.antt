-- ===== src/ContextUtil/Scoped/Reading/Way.antt =====
-- `ReadDir` of a scoped context lists the way to every package.
use buildutil.ContextUtil.Scoped.Parents.{Leads}
