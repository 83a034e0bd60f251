-- ===== src/Kube.antt =====
-- The Kubernetes objects that the operator reads and builds (metav1, corev1, batchv1): plain data
-- from outside the repository, with the fields that the operator's code names. A field `other`
-- stands for the fields that it only copies along.
mod Meta
mod Pods
mod Batch
pub mod Keys
pub use Meta.*
pub use Pods.*
pub use Batch.*
